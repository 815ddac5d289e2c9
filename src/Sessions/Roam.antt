-- ===== src/Sessions/Roam.antt =====
-- A session follows its peer to another address (internal/orchestrator/session.go). The name of the
-- transaction is a parameter, and one reading of the clock stands for those of a call.
use nostmesh.Base.{
  ℕ, ◌+◌, ℤ, String, Bool, true, false, not, ◌&&◌, List, [], ◌∷◌, Option, none, some, ltb,
  if◌then◌else◌, pos_part, neg_part, pos, ◌==◌, ℕ_eq,
}
use nostmesh.Base.Map.{lookup}
use nostmesh.Base.Outcome.{Outcome, ok, err}
use nostmesh.Net.{Prefix, AddrPort, addr_port_eq}
use nostmesh.Session.Types.{NostrKey, WireGuardKey}
use nostmesh.Engine.Candidate.{Candidate, permits}
use nostmesh.Wireguard.Port.{Controller, InterfaceSpec, InterfaceState, PeerSpec, zeros}
use nostmesh.Wireguard.Port
use nostmesh.Netstate.Journal.{OperationKind, Transaction, new_transaction}
use nostmesh.Netstate.Store.{JournalStore}
use nostmesh.Netstate.Planning.{Texts, Failure, Plan, plan_interface}
use nostmesh.Netstate.Manager.{Work, ApplyError, apply}
use nostmesh.Sessions.Table.{SessionState, SessionManager, is_established, put_session}

-- The manager of the network that a session manager may have.
pub record NetState : Type 0 where
  pub journal : Option JournalStore
  pub inject : Option OperationKind

-- What a roam works on.
pub record Place (S : Type 0) : Type 0 where
  pub manager : SessionManager
  pub host : S
  pub netstate : Option NetState

pub data RoamError : Type 0 where
  session_not_found unverified not_established no_tunnel_key too_soon no_allowed_ips : RoamError
  no_netstate not_ours : RoamError
  observing : Port.Error → RoamError
  planning : Failure → RoamError
  applying : ApplyError → RoamError

-- The interface as it was observed. Its private key is not read back.
unfoldable pub spec_of : InterfaceState → InterfaceSpec
spec_of i = record {
  name = i.name;
  private_key = zeros 32;
  listen_port = i.listen_port;
  addresses = i.addresses;
  mtu = i.mtu;
}

unfoldable pub roamed_peer : WireGuardKey → AddrPort → SessionState → PeerSpec
roamed_peer key address s = record {
  public_key = key;
  endpoint = some address;
  allowed_ips = s.allowed_ips;
  persistent_keepalive = pos 0;
}

-- Whether less than the interval has passed since the last roam.
unfoldable pub is_too_soon : ℕ → ℤ → Option ℕ → Bool
is_too_soon now interval none = false
is_too_soon now interval (some last) = ltb (now + neg_part interval) (last + pos_part interval)

abbrev pub is_at : Option AddrPort → AddrPort → Bool
is_at none address = false
is_at (some previous) address = previous == address

abbrev pub no_prefixes : List Prefix → Bool
no_prefixes [] = true
no_prefixes (_ ∷ _) = false

unfoldable pub moved_session : AddrPort → ℕ → SessionState → SessionState
moved_session address now s = record s {
  endpoint = some address;
  last_roam_at = some now;
  roam_count = s.roam_count + 1;
}

module _ (text : Texts) (roam_id : String → ℕ → String) {S : Type 0} (c : Controller S) where
  abbrev pub with_work : Place S → Work S → Place S
  with_work w work = record w {
    host = work.host;
    netstate = some (record { journal = work.journal; inject = work.inject });
  }

  unfoldable pub after_apply :
      Place S → Outcome (Work S) ApplyError Transaction → Outcome (Place S) RoamError (Unit {0})
  after_apply w (err x work) = err (applying x) (with_work w work)
  after_apply w (ok _ work) = ok tt (with_work w work)

  unfoldable pub after_plan :
      NetState → ℕ → Place S → Outcome S Failure Plan → Outcome (Place S) RoamError (Unit {0})
  unfolding after_apply
  after_plan net now w (err f t) = err (planning f) (record w { host = t })
  after_plan net now w (ok plan t) = after_apply w (
      apply text c plan now (record {
        transaction = new_transaction "" "" now;
        host = t;
        journal = net.journal;
        inject = net.inject;
      }))

  unfoldable pub after_observe :
      String
      → PeerSpec
      → ℕ
      → NetState
      → Place S
      → Outcome S Port.Error InterfaceState
      → Outcome (Place S) RoamError (Unit {0})
  unfolding spec_of after_plan
  after_observe iface peer now net w (err e s) = err (observing e) (record w { host = s })
  after_observe iface peer now net w (ok i s) =
      let plan = plan_interface text c (roam_id iface now) (spec_of i) (peer ∷ []) now s in
      if not i.owned_by_us then err not_ours (record w { host = s }) else after_plan net now w plan

  unfoldable pub apply_roam :
      String → PeerSpec → ℕ → Place S → Outcome (Place S) RoamError (Unit {0})
  unfolding after_observe
  apply_roam iface peer now w = elim w.netstate [
    | none ↦ err no_netstate w
    | some net ↦ after_observe iface peer now net w (c.observe_interface iface w.host)
  ]

  unfoldable pub remember :
      NostrKey
      → SessionState
      → Outcome (Place S) RoamError (Unit {0})
      → Outcome (Place S) RoamError (Unit {0})
  unfolding put_session
  remember peer s (err e w) = err e w
  remember peer s (ok _ w) = ok tt (record w { manager = put_session peer s w.manager })

  -- `applyEndpointChange`, past the look at the session.
  unfoldable pub move_session :
      NostrKey
      → SessionState
      → WireGuardKey
      → AddrPort
      → String
      → ℕ
      → Place S
      → Outcome (Place S) RoamError (Unit {0})
  unfolding apply_roam roamed_peer moved_session remember
  move_session peer s key address iface now w =
      let applied =
        remember peer (moved_session address now s)
          (apply_roam iface (roamed_peer key address s) now w) in
      if is_at s.endpoint address
      then ok tt w
      else if no_prefixes s.allowed_ips
      then err no_allowed_ips w
      else applied

  unfoldable pub change_endpoint :
      NostrKey → AddrPort → String → Bool → ℕ → Place S → Outcome (Place S) RoamError (Unit {0})
  unfolding move_session is_too_soon
  change_endpoint peer address iface observed now w = elim (lookup peer w.manager.sessions) [
    | none ↦ err session_not_found w
    | some s ↦
        if not (is_established s.phase) then err not_established w else elim s.tunnel_public_key [
          | none ↦ err no_tunnel_key w
          | some key ↦
              if observed && is_too_soon now w.manager.min_roam_interval s.last_roam_at
              then err too_soon w
              else move_session peer s key address iface now w
        ]
  ]

  unfoldable pub roam :
      NostrKey → Candidate → String → ℕ → Place S → Outcome (Place S) RoamError (Unit {0})
  unfolding change_endpoint
  roam peer candidate iface now w =
      if not (permits candidate.status)
      then err unverified w
      else change_endpoint peer candidate.address iface false now w

  unfoldable pub record_observed_endpoint :
      NostrKey → AddrPort → String → ℕ → Place S → Outcome (Place S) RoamError (Unit {0})
  unfolding change_endpoint
  record_observed_endpoint peer observed iface now w =
      change_endpoint peer observed iface true now w
