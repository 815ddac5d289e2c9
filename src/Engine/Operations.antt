-- ===== src/Engine/Operations.antt =====
-- The engine of a session and the operations on its candidates (internal/connectivity/engine.go).
-- The map holds pointers and `nominated` is one of them: here it is the id, which names the same
-- candidate since none is ever removed. The clock's reading is an argument,
-- one for a call: `AddCandidate` reads it twice.
use nostmesh.Base.{
  ℕ, ◌+◌, String, not, List, [], ◌∷◌, Option, none, some, nat_eq, leb, if◌then◌else◌, ◌==◌,
  string_eq, ℤ, pos, ◌*◌, ◌/◌, length,
}
use nostmesh.Base.Map.{lookup, insert}
use nostmesh.Base.Outcome.{Result, value, error}
use nostmesh.Base.Time.{add_duration, second}
use nostmesh.Net.{Addr, AddrPort, addr_port_eq, addr_is_valid}
use nostmesh.Engine.Candidate.{
  Candidate, Kind, is_known, requires_third_party, unverified, probing, valid, failed, permits,
  is_safe_address,
}

-- A limit below 0 acts as 0.
pub record Limits : Type 0 where
  pub max_candidates : ℕ
  pub max_attempts_per_candidate : ℕ
  pub max_third_party_candidates : ℕ
  pub gather_timeout : ℤ
  pub check_timeout : ℤ
  pub total_timeout : ℤ

pub record Engine : Type 0 where
  pub session_id : String
  pub limits : Limits
  pub candidates : List (String × Candidate)
  pub third_party_count : ℕ
  pub nominated : Option String
  pub started_at : ℕ

pub data Error : Type 0 where
  unsafe_address unknown_kind no_id address_changed too_many unknown_candidate no_session : Error

abbrev pub default_limits : Limits
default_limits = record {
  max_candidates = 32;
  max_attempts_per_candidate = 5;
  max_third_party_candidates = 8;
  gather_timeout = pos (5 * second);
  check_timeout = pos (500 * (second / 1000));
  total_timeout = pos (30 * second);
}

unfoldable pub new_engine : String → Limits → ℕ → Result Error Engine
new_engine session limits now =
    if session == ""
    then error no_session
    else value (record {
      session_id = session;
      limits = if nat_eq limits.max_candidates 0 then default_limits else limits;
      candidates = [];
      third_party_count = 0;
      nominated = none;
      started_at = now;
    })

-- How fmt writes a kind and an address is a parameter.
abbrev pub FoundationText : Type 0
FoundationText = Kind → Addr → String

unfoldable pub foundation_for : FoundationText → Candidate → String
foundation_for text c =
    text c.kind (if addr_is_valid c.related.addr then c.related.addr else c.address.addr)

-- The candidate as it is stored, whatever the caller put in its status.
unfoldable pub admitted : FoundationText → ℕ → Limits → Candidate → Candidate
unfolding foundation_for
admitted text now limits c =
    let expires =
      if nat_eq c.expires_at 0 then add_duration now limits.total_timeout else c.expires_at in
    let foundation = if c.foundation == "" then foundation_for text c else c.foundation in
    record c {
      foundation = foundation;
      status = unverified;
      attempts = 0;
      discovered_at = now;
      verified_at = none;
      expires_at = expires;
    }

abbrev pub store : Candidate → Engine → Engine
store c e = record e { candidates = insert c.id c e.candidates }

unfoldable pub add_candidate : FoundationText → Candidate → ℕ → Engine → Result Error Engine
unfolding admitted
add_candidate text c now e =
    if not (is_safe_address c.address)
    then error unsafe_address
    else if not (is_known c.kind)
    then error unknown_kind
    else if c.id == ""
    then error no_id
    else elim (lookup c.id e.candidates) [
      | some existing ↦
          if not (existing.address == c.address) then error address_changed else value e
      | none ↦
          if leb e.limits.max_candidates (length e.candidates)
          then error too_many
          else if requires_third_party c.kind
          then (if leb e.limits.max_third_party_candidates e.third_party_count
              then error too_many
              else value (
                  store (admitted text now e.limits c)
                    (record e { third_party_count = e.third_party_count + 1 })))
          else value (store (admitted text now e.limits c) e)
    ]

unfoldable pub record_attempt : String → Engine → Result Error Engine
record_attempt id e = elim (lookup id e.candidates) [
  | none ↦ error unknown_candidate
  | some c ↦ value (record e {
    candidates = insert id (record c { attempts = c.attempts + 1; status = probing }) e.candidates;
  })
]

abbrev pub nominate : Option String → String → Option String
nominate none id = some id
nominate (some winner) id = some winner

unfoldable pub record_success : String → ℕ → Engine → Result Error Engine
record_success id now e = elim (lookup id e.candidates) [
  | none ↦ error unknown_candidate
  | some c ↦ value (record e {
    candidates = insert id (record c { status = valid; verified_at = some now }) e.candidates;
    nominated = nominate e.nominated id;
  })
]

unfoldable pub record_failure : String → String → Engine → Result Error Engine
record_failure id reason e = elim (lookup id e.candidates) [
  | none ↦ error unknown_candidate
  | some c ↦
      let spent = leb e.limits.max_attempts_per_candidate c.attempts in
      value (record e {
        candidates =
            insert id
              (record c { status = if spent then failed else unverified; failure_reason = reason })
              e.candidates;
      })
]

unfoldable pub nominated_candidate : Engine → Option Candidate
nominated_candidate e = elim e.nominated [ none ↦ none | some id ↦ lookup id e.candidates ]

-- `Endpoint`, none where the source's second result is false.
unfoldable pub endpoint : Engine → Option AddrPort
unfolding nominated_candidate
endpoint e = elim (nominated_candidate e) [
  | none ↦ none
  | some c ↦ if permits c.status then some c.address else none
]

-- What happens to an engine; a call that fails leaves it as it was.
pub data Event : Type 0 where
  adding : Candidate → ℕ → Event
  attempting : String → Event
  succeeding : String → ℕ → Event
  failing : String → String → Event

unfoldable pub attempt : FoundationText → Event → Engine → Result Error Engine
attempt text (adding c now) e = add_candidate text c now e
attempt text (attempting id) e = record_attempt id e
attempt text (succeeding id now) e = record_success id now e
attempt text (failing id reason) e = record_failure id reason e

abbrev pub after : Engine → Result Error Engine → Engine
after e (value f) = f
after e (error x) = e

unfoldable pub run : FoundationText → List Event → Engine → Engine
unfolding attempt
run text [] e = e
run text (v ∷ vs) e = run text vs (after e (attempt text v e))
