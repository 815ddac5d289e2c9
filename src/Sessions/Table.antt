-- ===== src/Sessions/Table.antt =====
-- The table of sessions (internal/orchestrator/session.go). The lock serialises the calls, and has
-- no model; the source's copies for a caller are the records themselves.
use nostmesh.Base.{
  ℕ, zero, suc, ◌*◌, ℤ, pos, negsuc, String, Bool, true, false, not, List, [], any, length, map,
  Option, none, some, nat_eq, leb, if◌then◌else◌, ℕ_eq,
}
use nostmesh.Base.Map.{lookup, insert, delete, has}
use nostmesh.Base.Outcome.{Outcome, ok, err}
use nostmesh.Base.Time.{second}
use nostmesh.Net.{Prefix, AddrPort}
use nostmesh.Session.Types.{NostrKey, WireGuardKey, Handshake}
use nostmesh.Session.Start.{bytes_eq}
use nostmesh.Engine.Candidate.{Candidate, permits}

pub data Phase : Type 0 where
  authorizing negotiating gathering checking configuring verifying established failed : Phase

abbrev pub is_failed : Phase → Bool
is_failed failed = true
is_failed _ = false

abbrev pub is_established : Phase → Bool
is_established established = true
is_established _ = false

pub record SessionState : Type 0 where
  pub peer : NostrKey
  pub session_id : ℕ
  pub phase : Phase
  pub endpoint : Option AddrPort
  pub tunnel_public_key : Option WireGuardKey
  pub failure_reason : String
  pub diagnostics : List Candidate
  pub started_at : ℕ
  pub established_at : Option ℕ
  pub last_roam_at : Option ℕ
  pub roam_count : ℕ
  pub allowed_ips : List Prefix

-- The controller and the network's manager are in `Roam`.
pub record SessionManager : Type 0 where
  pub sessions : List (NostrKey × SessionState)
  pub handshakes : List (NostrKey × Handshake)
  pub max_sessions : ℕ
  pub min_roam_interval : ℤ

pub data Error : Type 0 where
  session_exists session_limit session_not_found unverified key_substituted default_route : Error

abbrev pub interval_or : ℤ → ℤ → ℤ
interval_or default (pos zero) = default
interval_or default (pos (suc n)) = pos (suc n)
interval_or default (negsuc n) = negsuc n

abbrev pub positive_or : ℕ → ℤ → ℕ
positive_or default (pos zero) = default
positive_or default (pos (suc n)) = suc n
positive_or default (negsuc n) = default

-- `NewSessionManager`, for a controller that is there.
unfoldable pub new_session_manager : ℤ → ℤ → SessionManager
new_session_manager max_sessions min_roam_interval = record {
  sessions = [];
  handshakes = [];
  max_sessions = positive_or 64 max_sessions;
  min_roam_interval = interval_or (pos (15 * second)) min_roam_interval;
}

unfoldable pub fresh_session : NostrKey → ℕ → ℕ → SessionState
fresh_session peer session_id now = record {
  peer = peer;
  session_id = session_id;
  phase = authorizing;
  endpoint = none;
  tunnel_public_key = none;
  failure_reason = "";
  diagnostics = [];
  started_at = now;
  established_at = none;
  last_roam_at = none;
  roam_count = 0;
  allowed_ips = [];
}

-- Whether a session with the peer has not failed.
abbrev pub is_active : NostrKey → SessionManager → Bool
is_active peer m = elim (lookup peer m.sessions) [ none ↦ false | some s ↦ not (is_failed s.phase) ]

-- What the session of a peer becomes.
unfoldable pub put_session : NostrKey → SessionState → SessionManager → SessionManager
put_session peer s m = record m { sessions = insert peer s m.sessions }

unfoldable pub begin : NostrKey → ℕ → ℕ → SessionManager → Outcome SessionManager Error SessionState
unfolding fresh_session put_session
begin peer session_id now m =
    let state = fresh_session peer session_id now in
    if is_active peer m
    then err session_exists m
    else if leb m.max_sessions (length m.sessions)
    then err session_limit m
    else ok state (put_session peer state m)

unfoldable pub track_handshake : NostrKey → Handshake → SessionManager → SessionManager
track_handshake peer h m = record m { handshakes = insert peer h m.handshakes }

unfoldable pub handshake_of : NostrKey → SessionManager → Option Handshake
handshake_of peer m = lookup peer m.handshakes

-- The calls that look a session up and change it.
unfoldable pub with_session :
    NostrKey
    → (SessionState → Outcome SessionState Error (Unit {0}))
    → SessionManager
    → Outcome SessionManager Error (Unit {0})
unfolding put_session
with_session peer f m = elim (lookup peer m.sessions) [
  | none ↦ err session_not_found m
  | some s ↦ elim (f s) [ err e s' ↦ err e m | ok _ s' ↦ ok tt (put_session peer s' m) ]
]

unfoldable pub in_phase : Phase → ℕ → SessionState → SessionState
in_phase phase now s = record s {
  phase = phase;
  established_at = if is_established phase then some now else s.established_at;
}

unfoldable pub advance_phase :
    NostrKey → Phase → ℕ → SessionManager → Outcome SessionManager Error (Unit {0})
unfolding with_session in_phase
advance_phase peer phase now m = with_session peer (λ s. ok tt (in_phase phase now s)) m

unfoldable pub record_endpoint :
    NostrKey → Candidate → SessionManager → Outcome SessionManager Error (Unit {0})
unfolding with_session
record_endpoint peer candidate m =
    if not (permits candidate.status)
    then err unverified m
    else with_session peer (λ s. ok tt (record s { endpoint = some candidate.address })) m

unfoldable pub fail :
    NostrKey → String → List Candidate → SessionManager → Outcome SessionManager Error (Unit {0})
unfolding with_session
fail peer reason diagnostics m =
    with_session peer
      (λ s. ok tt (record s { phase = failed; failure_reason = reason; diagnostics = diagnostics }))
      m

unfoldable pub close : NostrKey → SessionManager → Outcome SessionManager Error (Unit {0})
close peer m =
    if not (has peer m.sessions)
    then err session_not_found m
    else ok tt
        (record m { sessions = delete peer m.sessions; handshakes = delete peer m.handshakes })

unfoldable pub session_of : NostrKey → SessionManager → Option SessionState
session_of peer m = lookup peer m.sessions

unfoldable pub list_sessions : SessionManager → List SessionState
list_sessions m = map (λ e. e.1) m.sessions

abbrev pub is_other_key : Option WireGuardKey → WireGuardKey → Bool
is_other_key none key = false
is_other_key (some bound) key = not (bytes_eq bound key)

unfoldable pub bind_key : WireGuardKey → SessionState → Outcome SessionState Error (Unit {0})
bind_key key s =
    if is_other_key s.tunnel_public_key key
    then err key_substituted s
    else ok tt (record s { tunnel_public_key = some key })

unfoldable pub bind_tunnel_key :
    NostrKey → WireGuardKey → SessionManager → Outcome SessionManager Error (Unit {0})
unfolding with_session bind_key
bind_tunnel_key peer key m = with_session peer (bind_key key) m

unfoldable pub allow : List Prefix → SessionState → Outcome SessionState Error (Unit {0})
allow allowed s =
    if any (λ p. nat_eq p.bits_plus_one 1) allowed
    then err default_route s
    else ok tt (record s { allowed_ips = allowed })

unfoldable pub set_allowed_ips :
    NostrKey → List Prefix → SessionManager → Outcome SessionManager Error (Unit {0})
unfolding with_session allow
set_allowed_ips peer allowed m = with_session peer (allow allowed) m
