-- ===== src/Tests/Outbox.antt =====
-- An outbox that is full: a run of the theorem on the outbox.
use nostmesh.Base.{string_eq, refl, false, [], ◌∷◌, some, arith}
use nostmesh.Outbox.Queue.{Entry, Outbox}
use nostmesh.Outbox.Bounds.{Inv, asked, tried, enqueued, removed, run, run-Inv}

abbrev waiting : Entry
waiting = record {
  id = "e1";
  event = 123 ∷ [];
  accepted_by = "wss://one" ∷ [];
  attempts = 1;
  queued_at = 5;
  last_attempt = some 6;
  expires_at = 100;
}

abbrev box : Outbox
box = record { files = ("e1", waiting) ∷ []; max_entries = 2; max_attempts = 3; writes = [] }

-- A write fails, and another takes its place.
run-Inv_example : Inv 2 (
    run
      (enqueued (record waiting { id = "e2" }) 7
        ∷ tried "e1" ("wss://two" ∷ []) 9
        ∷ asked 200
        ∷ removed "e3"
        ∷ [])
      (record box { writes = false ∷ [] }))
run-Inv_example =
    run-Inv 2
      (enqueued (record waiting { id = "e2" }) 7
        ∷ tried "e1" ("wss://two" ∷ []) 9
        ∷ asked 200
        ∷ removed "e3"
        ∷ [])
      (record box { writes = false ∷ [] })
      (record { room = refl; bounded = omega arith; keyed = (refl, tt) })
