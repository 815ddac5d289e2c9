-- ===== src/Outbox/Attempts.antt =====
-- What a recorded attempt leaves of an entry.
use nostmesh.Base.{
  ℕ, ◌+◌, String, string_eq, ◌==◌, ◌≡◌, refl, ap, subst, ◌∙◌, Bool, true, false, ◌||◌, List, [],
  ◌∷◌, ◌++◌, any, some, if◌then◌else◌, arith, Bool-cases, inl, inr,
}
use nostmesh.Base.Map.{lookup, insert, lookup-insert}
use nostmesh.Base.Outcome.{Outcome, ok, err}
use nostmesh.Outbox.Queue.{
  Entry, Outbox, Error, is_accepted, write, accept_all, attempted, record_attempt,
}

any-append :
    (p : String → Bool) (xs : List String) (y : String) → any p (xs ++ (y ∷ [])) ≡ (any p xs || p y)
any-append p [] y = ground arith
any-append p (x ∷ xs) y = ground (arith, any-append p xs y)

-- An attempt touches what relays accepted, and nothing else of the entry.
record Grown (relays : List String) (e e' : Entry) : Type 0 where
  same_id : e'.id ≡ e.id
  same_attempts : e'.attempts ≡ e.attempts
  accepts :
      (relay : String)
      → is_accepted e' relay ≡ (is_accepted e relay || any (λ r. r == relay) relays)

accept_all-Grown : (relays : List String) (e : Entry) → Grown relays e (accept_all relays e)
unfolding accept_all is_accepted
accept_all-Grown [] e = record {
  same_id = refl;
  same_attempts = refl;
  accepts = λ relay. ground arith;
}
accept_all-Grown (r ∷ relays) e = elim (Bool-cases (is_accepted e r)) [
  | inl p ↦
      let g = accept_all-Grown relays e in
      rw (p, accept_all)
        (record {
          same_id = g.same_id;
          same_attempts = g.same_attempts;
          accepts = λ relay. ground (arith, g.accepts relay, string_eq.beq_iff r relay, p);
        })
  | inr p ↦
      let longer : Entry = record e { accepted_by = e.accepted_by ++ (r ∷ []) } in
      let g = accept_all-Grown relays longer in
      rw (p, accept_all)
        (record {
          same_id = g.same_id;
          same_attempts = g.same_attempts;
          accepts = λ relay.
              ground (arith, g.accepts relay, any-append (λ x. x == relay) e.accepted_by r);
        })
]

-- What a write leaves in the directory.
abbrev Wrote : Entry → Outbox → Outcome Outbox Error (Unit {0}) → Type 0
Wrote e o (ok _ o') = o'.files ≡ insert e.id e o.files
Wrote e o (err _ o') = o'.files ≡ o.files

write-Wrote : (e : Entry) (o : Outbox) → Wrote e o (write e o)
unfolding write
write-Wrote e o = go o.writes refl
  where
    go : (l : List Bool) → o.writes ≡ l → Wrote e o (write e o)
    go [] h = rw (h, write) refl
    go (true ∷ l) h = rw (h, write) refl
    go (false ∷ l) h = rw (h, write) refl

-- A recorded attempt counts one more, adds the relays that accepted to those that had, and leaves
-- every other entry as it was, where the entry stands under its own id.
pub record_attempt-accepted :
    (id : String) (relays : List String) (now : ℕ) (o o' : Outbox) (e : Entry)
    (relay other : String)
    → lookup id o.files ≡ some e
    → e.id ≡ id
    → record_attempt id relays now o ≡ ok tt o'
    → (e' : Entry) × ((e'.attempts ≡ e.attempts + 1)
        × ((is_accepted e' relay ≡ (is_accepted e relay || any (λ r. r == relay) relays))
            × (lookup other o'.files ≡ (if id == other then some e' else lookup other o.files))))
unfolding record_attempt attempted is_accepted
record_attempt-accepted id relays now o o' e relay other held own h =
    let again : Entry = record e { attempts = e.attempts + 1; last_attempt = some now } in
    let e' : Entry = accept_all relays again in
    let g : Grown relays again e' = accept_all-Grown relays again in
    let wrote : write e' o ≡ ok tt o' = rw (held, record_attempt) at h in
    let files : o'.files ≡ insert e'.id e' o.files = subst (Wrote e' o) wrote (write-Wrote e' o) in
    (
      e',
      (
        g.same_attempts,
        (
          g.accepts relay,
          ap (lookup other) files
              ∙ lookup-insert e'.id other e' o.files
              ∙ ap (λ k. if k == other then some e' else lookup other o.files) (g.same_id ∙ own),
        ),
      ),
    )
