-- ===== src/Engine/Candidate.antt =====
-- A candidate, and the addresses that may be probed (internal/connectivity/candidate.go).
use nostmesh.Base.{ℕ, String, Bool, true, false, not, ◌||◌, Option, nat_eq, leb, if◌then◌else◌}
use nostmesh.Base.Time.{before}
use nostmesh.Net.{
  AddrPort, addr_is_valid, unmap, is_unspecified, is_loopback, is_multicast,
  is_interface_local_multicast, is_link_local_multicast, is_link_local_unicast,
}

-- The kinds that the source knows, and any other text.
pub data Kind : Type 0 where
  host server_reflexive peer_reflexive static port_mapped unknown : Kind

abbrev pub is_known : Kind → Bool
is_known unknown = false
is_known _ = true

abbrev pub requires_third_party : Kind → Bool
requires_third_party server_reflexive = true
requires_third_party peer_reflexive = true
requires_third_party _ = false

pub data Status : Type 0 where
  unverified probing valid failed expired : Status

abbrev pub permits : Status → Bool
permits valid = true
permits _ = false

abbrev pub is_expired_status : Status → Bool
is_expired_status expired = true
is_expired_status _ = false

pub record Candidate : Type 0 where
  pub id : String
  pub kind : Kind
  pub address : AddrPort
  pub related : AddrPort
  pub foundation : String
  pub priority : ℕ
  pub status : Status
  pub source : String
  pub attempts : ℕ
  pub failure_reason : String
  pub discovered_at : ℕ
  pub verified_at : Option ℕ
  pub expires_at : ℕ

unfoldable pub is_expired : Candidate → ℕ → Bool
is_expired c now = not (before now c.expires_at)

unfoldable pub can_probe : Candidate → ℕ → ℕ → Bool
unfolding is_expired
can_probe c now max_attempts =
    if permits c.status || is_expired_status c.status
    then false
    else if is_expired c now
    then false
    else if leb max_attempts c.attempts
    then false
    else true

-- Whether `ValidateAddress` returns no error.
unfoldable pub is_safe_address : AddrPort → Bool
is_safe_address a =
    let ip = unmap a.addr in
    if not (addr_is_valid a.addr)
    then false
    else if nat_eq a.port 0
    then false
    else if is_unspecified ip
    then false
    else if is_loopback ip
    then false
    else if is_multicast ip || is_interface_local_multicast ip || is_link_local_multicast ip
    then false
    else if is_link_local_unicast ip
    then false
    else true
