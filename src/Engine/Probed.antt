-- ===== src/Engine/Probed.antt =====
-- Which addresses an engine never holds, in numbers, and how many candidates others reported
-- (internal/connectivity/candidate.go and engine.go).
use nostmesh.Base.{
  ℕ, ◌+◌, ◌%◌, ◌/◌, ◌^◌, ◌≤◌, String, ◌≡◌, ◌≢◌, refl, ◌∙◌, true, List, [], ◌∷◌, All, arith, length,
}
use nostmesh.Base.Outcome.{value}
use nostmesh.Net.{AddrPort, Family, unset, v4, v6}
use nostmesh.Engine.Candidate.{
  Candidate, Kind, server_reflexive, peer_reflexive, unknown, is_known, is_safe_address,
}
use nostmesh.Engine.Operations.{Engine, FoundationText, Event, run, new_engine, Limits}
use nostmesh.Engine.Bounds.{strangers, AllSafe, run-new_engine-Inv}

-- Neither 0.0.0.0 nor of 127.0.0.0/8, 224.0.0.0/4 or 169.254.0.0/16.
abbrev pub Outside4 : ℕ → Type 0
Outside4 a = (a ≢ 0) × (a / 2 ^ 24 ≢ 127) × (a / 2 ^ 28 ≢ 14) × (a / 2 ^ 16 ≢ 0xa9fe)

-- Neither :: nor ::1 nor of ff00::/8 or fe80::/10.
abbrev pub Outside6 : ℕ → Type 0
Outside6 a = (a ≢ 0) × (a ≢ 1) × (a / 2 ^ 120 ≢ 0xff) × (a / 2 ^ 118 ≢ 0x3fa)

-- An address of ::ffff:0:0/96 is judged by the IPv4 address that it holds.
abbrev pub Outside : Family → ℕ → Type 0
Outside unset a = ⊥
Outside v4 a = Outside4 a
Outside v6 a = (a / 2 ^ 32 ≡ 0xffff → Outside4 (a % 2 ^ 32)) × (a / 2 ^ 32 ≢ 0xffff → Outside6 a)

abbrev pub Probeable : AddrPort → Type 0
Probeable a = Outside a.addr.family a.addr.value × (a.port ≢ 0)

-- Candidates that a server or the peer reported.
abbrev pub reported : List (String × Candidate) → ℕ
reported [] = 0
reported ((_, c) ∷ m) =
    let rest = reported m in
    elim (c.kind) [ server_reflexive ↦ rest + 1 | peer_reflexive ↦ rest + 1 | _ ↦ rest ]

pub record Within (e : Engine) : Type 0 where
  pub bounded : length e.candidates ≤ e.limits.max_candidates
  pub counted : e.third_party_count ≡ reported e.candidates
  pub few : e.third_party_count ≤ e.limits.max_third_party_candidates
  pub probeable : All (λ c. Probeable c.1.address × (c.1.kind ≢ unknown)) e.candidates

is_safe_address-Probeable : (a : AddrPort) → is_safe_address a ≡ true → Probeable a
unfolding is_safe_address
is_safe_address-Probeable a h = ground arith

is_known-known : (k : Kind) → is_known k ≡ true → k ≢ unknown
is_known-known k h p = ground arith

strangers-reported : (m : List (String × Candidate)) → strangers m ≡ reported m
strangers-reported [] = refl
strangers-reported ((i, c) ∷ m) = ground (arith, strangers-reported m)

AllSafe-Probeable :
    (m : List (String × Candidate))
    → AllSafe m
    → All (λ c. Probeable c.1.address × (c.1.kind ≢ unknown)) m
AllSafe-Probeable [] a = tt
AllSafe-Probeable ((i, c) ∷ m) a = (
  (is_safe_address-Probeable c.address (a.0.0), is_known-known c.kind (a.0.1)),
  AllSafe-Probeable m (a.1),
)

-- After any events, an engine that was new holds at most as many candidates as its limit and at
-- most as many that a server or the peer reported as theirs, which it counts rightly. Each is of
-- one of the five kinds and has a port that is not 0 and an IPv4 or IPv6 address that is neither
-- unspecified nor loopback, multicast or link-local, also where an IPv6 address holds an IPv4 one.
pub run-new_engine-Within :
    (text : FoundationText) (session : String) (limits : Limits) (now : ℕ) (e : Engine)
    (vs : List Event)
    → new_engine session limits now ≡ value e
    → Within (run text vs e)
run-new_engine-Within text session limits now e vs h =
    let v = run-new_engine-Inv text session limits now e vs h in
    record {
      bounded = v.bounded;
      counted = v.counted ∙ strangers-reported (run text vs e).candidates;
      few = v.few;
      probeable = AllSafe-Probeable (run text vs e).candidates v.safe;
    }
