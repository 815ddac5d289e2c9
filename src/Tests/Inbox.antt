-- ===== src/Tests/Inbox.antt =====
-- An event that comes twice: runs of the theorems on the inbox.
use nostmesh.Base.{String, List, [], ◌∷◌, true, false, ◌≡◌, ◌≢◌, refl, arith, string_eq}
use nostmesh.Base.Map.{has}
use nostmesh.Inbox.Observe.{
  Inbox, is_new, is_duplicate, is_conflict, LogicalKey, evict_expired, observe, remember,
}
use nostmesh.Inbox.Verdicts.{Seen, observe_all, observe_again}
use nostmesh.Inbox.Bounds.{Inv, observe-Inv}

abbrev text : LogicalKey → String
text key = key.session_id

abbrev offer_key : LogicalKey
offer_key = record { session_id = "s"; kind = "session.offer"; seq = 1 }

abbrev small : Inbox
small = record { seen_events = []; seen_logical = []; ttl = 100; max_entries = 2 }

abbrev after_offer : Inbox
after_offer = record small { seen_events = ("e1", 10) ∷ []; seen_logical = ("s", "e1") ∷ [] }

took_offer : observe text "e1" offer_key 10 small ≡ (is_new, after_offer)
unfolding observe evict_expired remember
took_offer = refl

-- Another event for another place, and the first event again.
abbrev meanwhile : List Seen
meanwhile =
    record { id = "e3"; key = record offer_key { session_id = "u" }; at = 20 }
    ∷ (record { id = "e1"; key = offer_key; at = 30 } ∷ [])

abbrev roomy : Inbox
roomy = record small { max_entries = 5 }

abbrev roomy_after : Inbox
roomy_after = record after_offer { max_entries = 5 }

roomy_took_offer : observe text "e1" offer_key 10 roomy ≡ (is_new, roomy_after)
unfolding observe evict_expired remember
roomy_took_offer = refl

observe_again_example :
    let after = observe_all text meanwhile roomy_after in
    ((observe text "e1" offer_key 110 after).0 ≡ is_duplicate)
    × (has "e2" (evict_expired 110 after).seen_events ≡ false
        → (observe text "e2" offer_key 110 after).0 ≡ is_conflict)
observe_again_example =
    observe_again text "e1" "e2" offer_key offer_key 10 110 roomy roomy_after meanwhile
      roomy_took_offer (omega arith, (omega arith, tt)) (omega arith) (omega arith)

small-Inv : Inv small
small-Inv = record { room = omega arith; bounded = omega arith; named = tt; backed = tt }

observe-Inv_example : Inv (observe text "e1" offer_key 10 small).1
observe-Inv_example =
    observe-Inv text "e1" offer_key 10 small
      (λ p. let q : false ≡ true = (string_eq.beq_iff "e1" "").1 p in cc) small-Inv

again_is_old : (observe text "e1" offer_key 20 after_offer).0 ≢ is_new
unfolding observe evict_expired
again_is_old p = cc
