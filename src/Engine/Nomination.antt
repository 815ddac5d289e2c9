-- ===== src/Engine/Nomination.antt =====
-- An address is used only if a probe of it succeeded, and never changes under its id.
use nostmesh.Base.{
  ℕ, String, ◌≡◌, ◌⊎◌, inl, inr, refl, ap, ◌+◌, Bool, true, false, List, [], ◌∷◌, Option, none,
  some, arith, In, here, there, string_eq, ◌==◌, Bool-cases, Option-cases, if◌then◌else◌, leb,
}
use nostmesh.Base.Map.{lookup, lookup-insert}
use nostmesh.Base.Outcome.{value}
use nostmesh.Net.{AddrPort, addr_port_eq}
use nostmesh.Engine.Candidate.{Candidate, permits, valid, unverified, probing, failed}
use nostmesh.Engine.Operations.{
  Engine, FoundationText, Event, adding, attempting, succeeding, failing, attempt, after, run,
  endpoint, add_candidate, record_attempt, record_success, record_failure, admitted, new_engine,
  Limits,
}

status-admitted :
    (text : FoundationText) (now : ℕ) (limits : Limits) (c : Candidate)
    → (admitted text now limits c).status ≡ unverified
unfolding admitted
status-admitted text now limits c = refl

abbrev pub status_at : String → Engine → Bool
status_at id e = elim (lookup id e.candidates) [ none ↦ false | some c ↦ permits c.status ]

-- The address that an id stands for.
abbrev pub address_at : String → Engine → Option AddrPort
address_at id e = elim (lookup id e.candidates) [ none ↦ none | some c ↦ some c.address ]

address-admitted :
    (text : FoundationText) (now : ℕ) (limits : Limits) (c : Candidate)
    → (admitted text now limits c).address ≡ c.address
unfolding admitted
address-admitted text now limits c = refl

module _ (text : FoundationText) where
  -- One event makes a candidate usable only if it reports the success of its probe.
  attempt-status_at :
      (v : Event) (e : Engine) (id : String)
      → status_at id (after e (attempt text v e)) ≡ true
      → (status_at id e ≡ true) ⊎ ((now : ℕ) × (v ≡ succeeding id now))
  unfolding attempt add_candidate record_attempt record_success record_failure
  attempt-status_at (adding c now) e id h = inl (
      ground (
        arith,
        lookup-insert c.id id (admitted text now e.limits c) e.candidates,
        status-admitted text now e.limits c,
      ))
  attempt-status_at (attempting i) e id h = elim (Option-cases (lookup i e.candidates)) [
    | inl x ↦ inl (ground arith)
    | inr (c, x) ↦ inl (
        ground (
          arith,
          lookup-insert i id (record c { attempts = c.attempts + 1; status = probing })
              e.candidates,
        ))
  ]
  attempt-status_at (failing i r) e id h = elim (Option-cases (lookup i e.candidates)) [
    | inl x ↦ inl (ground arith)
    | inr (c, x) ↦
        let spent = leb e.limits.max_attempts_per_candidate c.attempts in
        inl (
          ground (
            arith,
            lookup-insert i id
                (record c { status = if spent then failed else unverified; failure_reason = r })
                e.candidates,
          ))
  ]
  attempt-status_at (succeeding i now) e id h = elim (Bool-cases (i == id)) [
    | inl x ↦ inr (now, ap (λ k. succeeding k now) ((string_eq.beq_iff i id).0 x))
    | inr x ↦ elim (Option-cases (lookup i e.candidates)) [
      | inl y ↦ inl (ground arith)
      | inr (c, y) ↦ inl (
          ground (
            arith,
            lookup-insert i id (record c { status = valid; verified_at = some now }) e.candidates,
          ))
    ]
  ]

  run-status_at :
      (vs : List Event) (e : Engine) (id : String)
      → status_at id (run text vs e) ≡ true
      → (status_at id e ≡ true) ⊎ ((now : ℕ) × In (succeeding id now) vs)
  unfolding run
  run-status_at [] e id h = inl h
  run-status_at (v ∷ vs) e id h = elim (run-status_at vs (after e (attempt text v e)) id h) [
    | inr (now, m) ↦ inr (now, there m)
    | inl before ↦ elim (attempt-status_at v e id before) [
      | inl old ↦ inl old
      | inr (now, same) ↦ inr (now, here same)
    ]
  ]

  -- The address that an engine gives out, after any events since it was new, is that of a candidate
  -- whose probe was reported to have succeeded.
  pub endpoint-run :
      (session : String) (limits : Limits) (now : ℕ) (e : Engine) (vs : List Event) (a : AddrPort)
      → new_engine session limits now ≡ value e
      → endpoint (run text vs e) ≡ some a
      → (id : String) × (at : ℕ) × In (succeeding id at) vs
        × (address_at id (run text vs e) ≡ some a)
  unfolding endpoint new_engine
  endpoint-run session limits now e vs a n h = elim (Option-cases (run text vs e).nominated) [
    | inl x ↦ absurd (ground arith)
    | inr (id, x) ↦ elim (Option-cases (lookup id (run text vs e).candidates)) [
      | inl y ↦ absurd (ground arith)
      | inr (c, y) ↦ elim (run-status_at vs e id (ground arith)) [
        | inl old ↦ absurd (ground arith)
        | inr (time, m) ↦ (id, time, m, ground arith)
      ]
    ]
  ]

  attempt-address_at :
      (v : Event) (e : Engine) (id : String) (a : AddrPort)
      → address_at id e ≡ some a
      → address_at id (after e (attempt text v e)) ≡ some a
  unfolding attempt add_candidate record_attempt record_success record_failure
  attempt-address_at (adding c now) e id a h = ground (
    arith,
    string_eq.beq_iff c.id id,
    lookup-insert c.id id (admitted text now e.limits c) e.candidates,
  )
  attempt-address_at (attempting i) e id a h = elim (Option-cases (lookup i e.candidates)) [
    | inl x ↦ ground arith
    | inr (c, x) ↦ ground (
      arith,
      string_eq.beq_iff i id,
      lookup-insert i id (record c { attempts = c.attempts + 1; status = probing }) e.candidates,
    )
  ]
  attempt-address_at (failing i r) e id a h = elim (Option-cases (lookup i e.candidates)) [
    | inl x ↦ ground arith
    | inr (c, x) ↦
        let spent = leb e.limits.max_attempts_per_candidate c.attempts in
        ground (
          arith,
          string_eq.beq_iff i id,
          lookup-insert i id
              (record c { status = if spent then failed else unverified; failure_reason = r })
              e.candidates,
        )
  ]
  attempt-address_at (succeeding i now) e id a h = elim (Option-cases (lookup i e.candidates)) [
    | inl x ↦ ground arith
    | inr (c, x) ↦ ground (
      arith,
      string_eq.beq_iff i id,
      lookup-insert i id (record c { status = valid; verified_at = some now }) e.candidates,
    )
  ]

  -- No events change the address of a candidate that is there.
  pub run-address_at :
      (vs : List Event) (e : Engine) (id : String) (a : AddrPort)
      → address_at id e ≡ some a
      → address_at id (run text vs e) ≡ some a
  unfolding run
  run-address_at [] e id a h = h
  run-address_at (v ∷ vs) e id a h =
      run-address_at vs (after e (attempt text v e)) id a (attempt-address_at v e id a h)
