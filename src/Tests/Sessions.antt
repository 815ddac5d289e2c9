-- ===== src/Tests/Sessions.antt =====
-- Sessions that begin, move and end: runs of the theorems on the table of sessions.
use nostmesh.Base.{◌+◌, string_eq, ◌≡◌, refl, true, false, [], ◌∷◌, some, none, pos, arith, ℕ_eq}
use nostmesh.Base.Outcome.{Outcome, ok, final}
use nostmesh.Net.{AddrPort, addr_port_beq, v4}
use nostmesh.Netstate.Planning.{
  Texts, plan_for, plan_interface, planned_operation, touches_interface, contains_prefix,
  contains_peer,
}
use nostmesh.Netstate.Journal.{
  new_transaction, mark_applying, mark_applied, update_status, update_first, written, commit, close,
  plan,
}
use nostmesh.Netstate.Manager.{
  save, begin, complete, maybe_inject, call, apply_step, apply_addresses, apply_interface,
  apply_peers, apply_routes, plan_all, carry_out, roll_back, opened, apply,
}
use nostmesh.Wireguard.Port.{zeros, owns_interface}
use nostmesh.Wireguard.Fake.{
  Fake, new_fake, fake_controller, empty_interface, observe_interface, record_call,
  ensure_interface, updated_peer, new_peer, upsert_peer,
}
use nostmesh.Wireguard.Fake
use nostmesh.Sessions.Table.{Phase, SessionState, SessionManager, fresh_session}
use nostmesh.Sessions.Bounds.{Inv, begun, bound, failed_with, closed, perform_all, perform_all-Inv}
use nostmesh.Sessions.Roam.{
  Place, after_apply, after_plan, after_observe, apply_roam, remember, move_session, roamed_peer,
  spec_of, is_at, RoamError, change_endpoint, record_observed_endpoint,
}
use nostmesh.Sessions.Keys.{bound_key, perform_all-bound_key}
use nostmesh.Sessions.Moves.{Roamed, change_endpoint-Roamed}
use nostmesh.Sessions.Hysteresis.{change_endpoint-record_observed_endpoint}
use nostmesh.Sessions.Answered
use nostmesh.Sessions.Remembered
use nostmesh.Sessions.Answered.{
  AnsweredSessions, new_answered_sessions, contains, answered_retention,
}
use nostmesh.Sessions.Remembered.{asked, recorded, add-contains, contains_forgets}

abbrev small : SessionManager
small = record { sessions = []; handshakes = []; max_sessions = 1; min_roam_interval = pos 10 }

small-Inv : Inv 1 small
small-Inv = record { room = refl; bounded = omega arith; sound = λ peer s h. absurd (ground arith) }

-- The second peer finds no room.
perform_all-Inv_example : Inv 1 (
    perform_all
      (begun 7 1 5
        ∷ bound 7 (zeros 32)
        ∷ begun 8 2 6
        ∷ failed_with 7 "no path" []
        ∷ begun 7 3 7
        ∷ closed 7
        ∷ [])
      small)
perform_all-Inv_example =
    perform_all-Inv 1
      (begun 7 1 5
        ∷ bound 7 (zeros 32)
        ∷ begun 8 2 6
        ∷ failed_with 7 "no path" []
        ∷ begun 7 3 7
        ∷ closed 7
        ∷ [])
      small small-Inv

abbrev nothing_kept : AnsweredSessions Unit Unit
nothing_kept = new_answered_sessions tt

add-contains_example :
    (contains 4
      (1 + answered_retention)
      (Remembered.perform_all (asked 5 2 ∷ recorded 6 3 ∷ []) (Answered.add 4 1 nothing_kept))).0
    ≡ true
add-contains_example =
    add-contains 4 1 (1 + answered_retention) (asked 5 2 ∷ recorded 6 3 ∷ []) nothing_kept
      ((omega arith, omega arith), ((omega arith, omega arith), tt)) (omega arith)

abbrev text : Texts
text = record {
  key_text = λ _. "key";
  parse_key = λ _. some (zeros 32);
  prefix_text = λ _. "prefix";
  parse_prefix = λ _. none;
  error_text = λ _. "failed";
}

abbrev near : AddrPort
near = record { addr = record { family = v4; value = 10 }; port = 51820 }

abbrev far : AddrPort
far = record { addr = record { family = v4; value = 20 }; port = 51820 }

abbrev carrying : SessionState
carrying = record (fresh_session 7 1 5) {
  phase = Phase.established;
  endpoint = some near;
  tunnel_public_key = some (zeros 32);
  allowed_ips = record { addr = record { family = v4; value = 30 }; bits_plus_one = 33 } ∷ [];
}

-- The interface stands, and the journal is in memory.
abbrev place : Place Fake
place = record {
  manager = record small { sessions = (7, carrying) ∷ [] };
  host = record new_fake { interfaces = ("nm0", empty_interface "nm0" [] true) ∷ [] };
  netstate = some (record { journal = none; inject = none });
}

abbrev moving : Outcome (Place Fake) RoamError Unit
moving = change_endpoint text (λ iface now. "roam") fake_controller 7 far "nm0" false 20 place

is_moved : moving ≡ ok tt (final moving)
unfolding change_endpoint move_session after_apply after_plan after_observe apply_roam remember
    fresh_session apply opened plan_all carry_out roll_back save plan apply_interface
    apply_addresses apply_peers apply_routes apply_step begin complete call maybe_inject
    mark_applying mark_applied update_status update_first written close commit touches_interface
    new_transaction plan_interface plan_for planned_operation contains_prefix contains_peer
    fake_controller ensure_interface Fake.apply_peer observe_interface record_call owns_interface
    new_peer upsert_peer updated_peer new_fake spec_of roamed_peer addr_port_beq
is_moved = refl

change_endpoint-Roamed_example : Roamed 7 far 20 place moving
change_endpoint-Roamed_example =
    change_endpoint-Roamed text (λ iface now. "roam") fake_controller 7 far "nm0" false 20 place

is_away : is_at (some near) far ≡ false
unfolding addr_port_beq
is_away = refl

-- Nine nanoseconds after the move, of the ten that it holds for.
change_endpoint-record_observed_endpoint_example :
    final (
      record_observed_endpoint text
        (λ iface now. "roam")
        fake_controller
        7
        near
        "nm0"
        29
        (final moving))
    ≡ final moving
unfolding fresh_session
change_endpoint-record_observed_endpoint_example =
    change_endpoint-record_observed_endpoint text (λ iface now. "roam") fake_controller 7 far near
      "nm0" false 20 29 carrying place (final moving) refl is_away is_moved refl

-- Another key is offered for the session, and its failure does not free it.
perform_all-bound_key_example :
    bound_key 7 (
      perform_all
        (bound 7 (1 ∷ []) ∷ begun 8 2 6 ∷ failed_with 7 "no path" [] ∷ closed 8 ∷ [])
        place.manager)
    ≡ some (zeros 32)
perform_all-bound_key_example =
    perform_all-bound_key 7 (zeros 32)
      (bound 7 (1 ∷ []) ∷ begun 8 2 6 ∷ failed_with 7 "no path" [] ∷ closed 8 ∷ []) place.manager
      (refl, (refl, (refl, (refl, tt)))) refl
