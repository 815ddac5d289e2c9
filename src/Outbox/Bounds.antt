-- ===== src/Outbox/Bounds.antt =====
-- The outbox stays within its size, whatever is asked of it and whichever writes fail.
use nostmesh.Base.{
  ℕ, ◌+◌, ◌≤◌, String, string_eq, ◌==◌, ◌≡◌, refl, ◌∙◌, Bool, true, false, ◌||◌, not, ◌&&◌, List,
  [], ◌∷◌, ◌++◌, All, some, length, leb, arith, Option-cases, Bool-cases, inl, inr,
}
use nostmesh.Base.Map.{lookup, insert, delete, has, length-insert, length-delete-le}
use nostmesh.Base.Outcome.{Outcome, ok, err, final}
use nostmesh.Netstate.Store.{has_separator}
use nostmesh.Outbox.Queue.{
  Entry, Outbox, Error, is_accepted, is_expired, is_exhausted, is_nil, queued, write, remove,
  enqueue, drop_spent, pending, accept_all, attempted, record_attempt,
}

-- No more entries than there is room for, each under its own id.
pub record Inv (n : ℕ) (o : Outbox) : Type 0 where
  pub room : o.max_entries ≡ n
  pub bounded : length o.files ≤ n
  pub keyed : All (λ f. f.1.id ≡ f.0) o.files

keyed-insert :
    (e : Entry) (m : List (String × Entry))
    → All (λ f. f.1.id ≡ f.0) m
    → All (λ f. f.1.id ≡ f.0) (insert e.id e m)
keyed-insert e [] h = (refl, tt)
keyed-insert e ((k, x) ∷ m) h = elim (Bool-cases (k == e.id)) [
  | inl p ↦ rw p (refl, h.1)
  | inr p ↦ rw p (h.0, keyed-insert e m h.1)
]

keyed-delete :
    (id : String) (m : List (String × Entry))
    → All (λ f. f.1.id ≡ f.0) m
    → All (λ f. f.1.id ≡ f.0) (delete id m)
keyed-delete id [] h = tt
keyed-delete id ((k, x) ∷ m) h = elim (Bool-cases (k == id)) [
  | inl p ↦ rw p (keyed-delete id m h.1)
  | inr p ↦ rw p (h.0, keyed-delete id m h.1)
]

keyed-lookup :
    (id : String) (e : Entry) (m : List (String × Entry))
    → All (λ f. f.1.id ≡ f.0) m
    → lookup id m ≡ some e
    → e.id ≡ id
keyed-lookup id e [] h l = absurd (ground arith)
keyed-lookup id e ((k, x) ∷ m) h l = elim (Bool-cases (k == id)) [
  | inl p ↦ ground (arith, h.0, string_eq.beq_iff k id)
  | inr p ↦ keyed-lookup id e m h.1 (rw p at l)
]

module _ (n : ℕ) where
  write-Inv :
      (e : Entry) (o : Outbox)
      → (has e.id o.files || not (leb n (length o.files))) ≡ true
      → Inv n o
      → Inv n (final (write e o))
  unfolding write
  write-Inv e o fits i = go o.writes refl
    where
      files-Inv : (l : List Bool) → Inv n (record o { files = insert e.id e o.files; writes = l })
      files-Inv l = record {
        room = i.room;
        bounded = ground (arith, length-insert e.id e o.files, i.bounded);
        keyed = keyed-insert e o.files i.keyed;
      }

      go : (l : List Bool) → o.writes ≡ l → Inv n (final (write e o))
      go [] h = rw (h, write) (files-Inv o.writes)
      go (true ∷ l) h = rw (h, write) (files-Inv l)
      go (false ∷ l) h =
          rw (h, write) (record { room = i.room; bounded = i.bounded; keyed = i.keyed })

  remove-Inv : (id : String) (o : Outbox) → Inv n o → Inv n (final (remove id o))
  unfolding remove
  remove-Inv id o i = go o.writes refl
    where
      left : (l : List Bool) → Inv n (record o { files = delete id o.files; writes = l })
      left l = record {
        room = i.room;
        bounded = ground (arith, length-delete-le id o.files, i.bounded);
        keyed = keyed-delete id o.files i.keyed;
      }

      go : (l : List Bool) → o.writes ≡ l → Inv n (final (remove id o))
      go [] h = rw (h, remove) (left o.writes)
      go (true ∷ l) h = rw (h, remove) (left l)
      go (false ∷ l) h =
          rw (h, remove) (record { room = i.room; bounded = i.bounded; keyed = i.keyed })

  enqueue-Inv : (e : Entry) (now : ℕ) (o : Outbox) → Inv n o → Inv n (final (enqueue e now o))
  unfolding enqueue
  enqueue-Inv e now o i = elim (Bool-cases (e.id == "")) [
    | inl p ↦ rw (p, enqueue) i
    | inr p ↦ elim (Bool-cases (has_separator e.id)) [
      | inl s ↦ rw (p, s, enqueue) i
      | inr s ↦ elim (Bool-cases (is_nil e.event)) [
        | inl v ↦ rw (p, s, v, enqueue) i
        | inr v ↦ elim (Bool-cases (not (has e.id o.files) && leb o.max_entries (length o.files))) [
          | inl f ↦ rw (p, s, v, f, enqueue) i
          | inr f ↦ rw (p, s, v, f, enqueue) (write-Inv (queued now e) o (ground (arith, i.room)) i)
        ]
      ]
    ]
  ]

  drop_spent-Inv :
      (now : ℕ) (listed : List (String × Entry)) (o : Outbox)
      → Inv n o
      → Inv n (final (drop_spent now listed o))
  unfolding drop_spent
  drop_spent-Inv now [] o i = i
  drop_spent-Inv now ((id, e) ∷ listed) o i =
      elim (Bool-cases (is_expired now e || is_exhausted o.max_attempts e)) [
        | inl s ↦
            rw (s, drop_spent)
              (removed (λ o' j. drop_spent-Inv now listed o' j) (remove id o) (remove-Inv id o i))
        | inr s ↦
            rw (s, drop_spent) (kept (drop_spent now listed o) (drop_spent-Inv now listed o i))
      ]
    where
      kept :
          (r : Outcome Outbox Error (List Entry))
          → Inv n (final r)
          → Inv n (
              final (elim r as (λ _. Outcome Outbox Error (List Entry)) [
                | err x o' ↦ err x o'
                | ok pending o' ↦ ok (e ∷ pending) o'
              ]))
      kept (ok _ _) j = j
      kept (err _ _) j = j

      removed :
          ((o' : Outbox) → Inv n o' → Inv n (final (drop_spent now listed o')))
          → (r : Outcome Outbox Error (Unit {0})) → Inv n (final r)
          → Inv n (
              final (elim r as (λ _. Outcome Outbox Error (List Entry)) [
                | err x o' ↦ err x o'
                | ok _ o' ↦ drop_spent now listed o'
              ]))
      removed go (ok _ o') j = go o' j
      removed go (err _ _) j = j

accept_all-id : (relays : List String) (e : Entry) → (accept_all relays e).id ≡ e.id
unfolding accept_all
accept_all-id [] e = refl
accept_all-id (relay ∷ relays) e = elim (Bool-cases (is_accepted e relay)) [
  | inl p ↦ rw (p, accept_all) (accept_all-id relays e)
  | inr p ↦
      rw (p, accept_all)
        (accept_all-id relays (record e { accepted_by = e.accepted_by ++ (relay ∷ []) }))
]

record_attempt-Inv :
    (n : ℕ) (id : String) (relays : List String) (now : ℕ) (o : Outbox)
    → Inv n o
    → Inv n (final (record_attempt id relays now o))
unfolding record_attempt attempted
record_attempt-Inv n id relays now o i = elim (Option-cases (lookup id o.files)) [
  | inl m ↦ rw (m, record_attempt) i
  | inr (e, m) ↦
      let again : Entry = record e { attempts = e.attempts + 1; last_attempt = some now } in
      let same : (accept_all relays again).id ≡ id =
        accept_all-id relays again ∙ keyed-lookup id e o.files i.keyed m in
      let there : has (accept_all relays again).id o.files ≡ true = rw (same, m) in
      rw (m, record_attempt) (write-Inv n (accept_all relays again) o (ground arith) i)
]

-- What may be asked of an outbox, each at a time of the clock.
pub data Event : Type 0 where
  enqueued : Entry → ℕ → Event
  asked : ℕ → Event
  tried : String → List String → ℕ → Event
  removed : String → Event

abbrev pub apply : Event → Outbox → Outbox
apply (enqueued e now) o = final (enqueue e now o)
apply (asked now) o = final (pending now o)
apply (tried id relays now) o = final (record_attempt id relays now o)
apply (removed id) o = final (remove id o)

abbrev pub run : List Event → Outbox → Outbox
run [] o = o
run (e ∷ es) o = run es (apply e o)

apply-Inv : (n : ℕ) (e : Event) (o : Outbox) → Inv n o → Inv n (apply e o)
unfolding pending
apply-Inv n (enqueued e now) o i = enqueue-Inv n e now o i
apply-Inv n (asked now) o i = drop_spent-Inv n now o.files o i
apply-Inv n (tried id relays now) o i = record_attempt-Inv n id relays now o i
apply-Inv n (removed id) o i = remove-Inv n id o i

-- Whatever is asked of an outbox, and whichever writes and removals fail, it never holds more
-- entries than it has room for, keeps that room, and holds each entry under its own id, if it did at
-- the start.
pub run-Inv : (n : ℕ) (es : List Event) (o : Outbox) → Inv n o → Inv n (run es o)
run-Inv n [] o i = i
run-Inv n (e ∷ es) o i = run-Inv n es (apply e o) (apply-Inv n e o i)
