-- ===== src/Engine/Bounds.antt =====
-- How many candidates a session may hold, how many of them strangers may name, and that each has
-- passed the checks (internal/connectivity/engine.go).
use nostmesh.Base.{
  ℕ, String, ◌≡◌, ◌⊎◌, ◌≤◌, ◌+◌, inl, inr, refl, sym, ◌∙◌, true, List, [], ◌∷◌, none, some, arith,
  string_eq, ◌==◌, Bool-cases, Option-cases, if◌then◌else◌, leb, length,
}
use nostmesh.Base.Map.{lookup, insert, length-insert}
use nostmesh.Base.Outcome.{Result, value, error}
use nostmesh.Net.{addr_port_eq}
use nostmesh.Engine.Candidate.{
  Candidate, is_safe_address, valid, unverified, probing, failed, requires_third_party, is_known,
}
use nostmesh.Engine.Operations.{
  Engine, Error, FoundationText, Event, adding, attempting, succeeding, failing, attempt, after,
  run, add_candidate, record_attempt, record_success, record_failure, admitted, new_engine, Limits,
}

-- How many candidates came from strangers.
abbrev pub strangers : List (String × Candidate) → ℕ
strangers [] = 0
strangers ((_, c) ∷ m) =
    let rest = strangers m in if requires_third_party c.kind then rest + 1 else rest

-- Every candidate has an address that passes `ValidateAddress` and is of a known kind.
abbrev pub AllSafe : List (String × Candidate) → Type 0
AllSafe [] = Unit
AllSafe ((_, c) ∷ m) = ((is_safe_address c.address ≡ true) × (is_known c.kind ≡ true)) × AllSafe m

pub record Inv (e : Engine) : Type 0 where
  pub bounded : length e.candidates ≤ e.limits.max_candidates
  pub counted : e.third_party_count ≡ strangers e.candidates
  pub few : e.third_party_count ≤ e.limits.max_third_party_candidates
  pub safe : AllSafe e.candidates

-- A new id adds its candidate.
strangers-insert_new :
    (id : String) (c : Candidate) (m : List (String × Candidate))
    → lookup id m ≡ none
    → strangers (insert id c m)
      ≡ (if requires_third_party c.kind then strangers m + 1 else strangers m)
strangers-insert_new id c [] h = omega arith
strangers-insert_new id c ((j, d) ∷ m) h = ground (arith, strangers-insert_new id c m)

-- A candidate of the same kind takes the place of the old one.
strangers-insert_old :
    (id : String) (c d : Candidate) (m : List (String × Candidate))
    → lookup id m ≡ some d
    → c.kind ≡ d.kind
    → strangers (insert id c m) ≡ strangers m
strangers-insert_old id c d [] h k = absurd (ground arith)
strangers-insert_old id c d ((j, x) ∷ m) h k = ground (arith, strangers-insert_old id c d m)

AllSafe-insert :
    (id : String) (c : Candidate) (m : List (String × Candidate))
    → is_safe_address c.address ≡ true
    → is_known c.kind ≡ true
    → AllSafe m
    → AllSafe (insert id c m)
AllSafe-insert id c [] s k a = ((s, k), tt)
AllSafe-insert id c ((j, d) ∷ m) s k a = elim (Bool-cases (j == id)) [
  | inl e ↦ rw e ((s, k), a.1)
  | inr e ↦ rw e (a.0, AllSafe-insert id c m s k (a.1))
]

AllSafe-lookup :
    (id : String) (c : Candidate) (m : List (String × Candidate))
    → AllSafe m
    → lookup id m ≡ some c
    → (is_safe_address c.address ≡ true) × (is_known c.kind ≡ true)
AllSafe-lookup id c [] a h = absurd (ground arith)
AllSafe-lookup id c ((j, d) ∷ m) a h = ground (arith, AllSafe-lookup id c m (a.1))

-- A candidate that is rewritten in place keeps its kind and address, and the invariant.
rewrite-Inv :
    (id : String) (c d : Candidate) (e : Engine)
    → Inv e
    → lookup id e.candidates ≡ some d
    → c.kind ≡ d.kind
    → c.address ≡ d.address
    → Inv (record e { candidates = insert id c e.candidates })
rewrite-Inv id c d e v h k a =
    let (s, n) = AllSafe-lookup id d e.candidates v.safe h in
    record {
      bounded = ground (arith, length-insert id c e.candidates);
      counted = v.counted ∙ sym (strangers-insert_old id c d e.candidates h k);
      few = v.few;
      safe = AllSafe-insert id c e.candidates (rw a s) (rw k n) v.safe;
    }

add_candidate-Inv :
    (text : FoundationText) (c : Candidate) (now : ℕ) (e f : Engine)
    → Inv e
    → add_candidate text c now e ≡ value f
    → Inv f
unfolding add_candidate admitted
add_candidate-Inv text c now e f v h = elim (Option-cases (lookup c.id e.candidates)) [
  | inr (d, x) ↦ ground arith
  | inl x ↦
      let a = admitted text now e.limits c in
      let grown = length-insert c.id a e.candidates in
      let more = strangers-insert_new c.id a e.candidates x in
      ground (arith, grown, more, AllSafe-insert c.id a e.candidates)
]

outcome-cases :
    {A : Type 0} (r : Result Error A) → ((x : Error) × (r ≡ error x)) ⊎ ((f : A) × (r ≡ value f))
outcome-cases (value f) = inr (f, refl)
outcome-cases (error x) = inl (x, refl)

attempt-Inv :
    (text : FoundationText) (v : Event) (e : Engine) → Inv e → Inv (after e (attempt text v e))
unfolding attempt record_attempt record_success record_failure
attempt-Inv text (adding c now) e v = elim (outcome-cases (add_candidate text c now e)) [
  | inl (x, h) ↦ rw (after, h) v
  | inr (f, h) ↦ rw (after, h) (add_candidate-Inv text c now e f v h)
]
attempt-Inv text (attempting i) e v = elim (Option-cases (lookup i e.candidates)) [
  | inl x ↦ rw (after, x) v
  | inr (d, x) ↦
      rw (after, x)
        (rewrite-Inv i (record d { attempts = d.attempts + 1; status = probing }) d e v x refl refl)
]
attempt-Inv text (succeeding i now) e v = elim (Option-cases (lookup i e.candidates)) [
  | inl x ↦ rw (after, x) v
  | inr (d, x) ↦
      let r =
        rewrite-Inv i (record d { status = valid; verified_at = some now }) d e v x refl refl in
      rw (after, x)
        (record { bounded = r.bounded; counted = r.counted; few = r.few; safe = r.safe })
]
attempt-Inv text (failing i reason) e v = elim (Option-cases (lookup i e.candidates)) [
  | inl x ↦ rw (after, x) v
  | inr (d, x) ↦
      let spent = leb e.limits.max_attempts_per_candidate d.attempts in
      rw (after, x)
        (rewrite-Inv i
          (record d { status = if spent then failed else unverified; failure_reason = reason }) d e
          v x refl refl)
]

run-Inv : (text : FoundationText) (vs : List Event) (e : Engine) → Inv e → Inv (run text vs e)
unfolding run
run-Inv text [] e v = v
run-Inv text (x ∷ xs) e v = run-Inv text xs (after e (attempt text x e)) (attempt-Inv text x e v)

-- An engine that was new keeps the invariant through any events.
pub run-new_engine-Inv :
    (text : FoundationText) (session : String) (limits : Limits) (now : ℕ) (e : Engine)
    (vs : List Event)
    → new_engine session limits now ≡ value e
    → Inv (run text vs e)
unfolding new_engine
run-new_engine-Inv text session limits now e vs h = run-Inv text vs e (ground arith)
