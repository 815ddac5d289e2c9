-- ===== src/Sessions/Moves.antt =====
-- What a roam leaves of the table.
use nostmesh.Base.{
  ℕ, String, ◌≡◌, refl, ap, subst, sym, ◌∙◌, Bool, true, false, ◌&&◌, [], ◌∷◌, Option, none, some,
  nat_eq_iff, arith, Option-cases, Bool-cases, inl, inr, ◌⊎◌, ℕ_eq, ◌==◌,
}
use nostmesh.Base.Map.{lookup, lookup-insert}
use nostmesh.Base.Outcome.{Outcome, ok, err}
use nostmesh.Net.{AddrPort, addr_port_eq}
use nostmesh.Session.Types.{NostrKey, WireGuardKey}
use nostmesh.Wireguard.Port.{Controller, PeerSpec, InterfaceState}
use nostmesh.Wireguard.Port
use nostmesh.Netstate.Planning.{Texts, Plan, Failure, plan_interface}
use nostmesh.Netstate.Journal.{Transaction, new_transaction}
use nostmesh.Netstate.Manager.{Work, ApplyError, apply}
use nostmesh.Sessions.Table.{SessionState, SessionManager, is_established, put_session}
use nostmesh.Sessions.Roam.{
  NetState, Place, RoamError, spec_of, roamed_peer, is_too_soon, is_at, no_prefixes, moved_session,
  after_apply, after_plan, after_observe, remember, apply_roam, move_session, change_endpoint,
}

-- A session without what a roam may change.
abbrev pub kept : SessionState → SessionState
kept s = record s { endpoint = none; last_roam_at = none; roam_count = 0 }

-- One session has another endpoint and is otherwise the session that it was, and no other changes.
pub record Moved (peer : NostrKey) (address : AddrPort) (now : ℕ) (m m' : SessionManager)
    : Type 0 where
  pub before : SessionState
  pub after : SessionState
  pub was : lookup peer m.sessions ≡ some before
  pub is : lookup peer m'.sessions ≡ some after
  pub same : kept after ≡ kept before
  pub stamped : (after.endpoint ≡ before.endpoint) ⊎ (after.last_roam_at ≡ some now)
  pub arrived : after.endpoint ≡ some address
  pub others : (q : NostrKey) → (peer == q) ≡ false → lookup q m'.sessions ≡ lookup q m.sessions
  pub interval : m'.min_roam_interval ≡ m.min_roam_interval
  pub handshakes : m'.handshakes ≡ m.handshakes

abbrev pub Roamed :
    {S : Type 0}
    → NostrKey
    → AddrPort
    → ℕ
    → Place S
    → Outcome (Place S) RoamError (Unit {0})
    → Type 0
Roamed peer address now w (ok _ w') = Moved peer address now w.manager w'.manager
Roamed peer address now w (err _ w') = w'.manager ≡ w.manager

-- The table is not touched.
SameTable : {S : Type 0} → Place S → Outcome (Place S) RoamError (Unit {0}) → Type 0
SameTable w (ok _ w') = w'.manager ≡ w.manager
SameTable w (err _ w') = w'.manager ≡ w.manager

stays_there :
    (peer : NostrKey) (address : AddrPort) (now : ℕ) (s : SessionState) (m : SessionManager)
    → lookup peer m.sessions ≡ some s
    → is_at s.endpoint address ≡ true
    → Moved peer address now m m
stays_there peer address now s m h e = record {
  before = s;
  after = s;
  was = h;
  is = h;
  same = refl;
  stamped = inl refl;
  interval = refl;
  arrived = at s.endpoint e;
  others = λ q d. refl;
  handshakes = refl;
}
  where
    at : (o : Option AddrPort) → is_at o address ≡ true → o ≡ some address
    at none e = absurd (ground arith)
    at (some previous) e = ap some ((addr_port_eq.beq_iff previous address).0 e)

put_session-Moved :
    (peer : NostrKey) (address : AddrPort) (now : ℕ) (s : SessionState) (m m' : SessionManager)
    → lookup peer m.sessions ≡ some s
    → m' ≡ m
    → Moved peer address now m (put_session peer (moved_session address now s) m')
unfolding put_session moved_session
put_session-Moved peer address now s m m' h e =
    subst (λ k. Moved peer address now m (put_session peer (moved_session address now s) k)) (sym e)
      (record {
        before = s;
        after = moved_session address now s;
        was = h;
        is =
            lookup-insert peer peer (moved_session address now s) m.sessions
            ∙ rw ((nat_eq_iff peer peer).1 refl);
        same = refl;
        stamped = inr refl;
        interval = refl;
        arrived = refl;
        others = λ q d. lookup-insert peer q (moved_session address now s) m.sessions ∙ rw d;
        handshakes = refl;
      })

module _ (text : Texts) (roam_id : String → ℕ → String) {S : Type 0} (c : Controller S) where
  after_apply-SameTable :
      (w : Place S) (o : Outcome (Work S) ApplyError Transaction)
      → SameTable w (after_apply text roam_id c w o)
  unfolding after_apply SameTable
  after_apply-SameTable w (err x work) = refl
  after_apply-SameTable w (ok _ work) = refl

  after_plan-SameTable :
      (net : NetState) (now : ℕ) (w : Place S) (o : Outcome S Failure Plan)
      → SameTable w (after_plan text roam_id c net now w o)
  unfolding after_plan SameTable
  after_plan-SameTable net now w (err f t) = refl
  after_plan-SameTable net now w (ok plan t) = after_apply-SameTable w (
      apply text c plan now (record {
        transaction = new_transaction "" "" now;
        host = t;
        journal = net.journal;
        inject = net.inject;
      }))

  after_observe-SameTable :
      (iface : String) (p : PeerSpec) (now : ℕ) (net : NetState) (w : Place S)
      (o : Outcome S Port.Error InterfaceState)
      → SameTable w (after_observe text roam_id c iface p now net w o)
  unfolding after_observe SameTable
  after_observe-SameTable iface p now net w (err e s) = refl
  after_observe-SameTable iface p now net w (ok i s) = elim (Bool-cases i.owned_by_us) [
    | inl h ↦ rw h (
        after_plan-SameTable net now w
          (plan_interface text c (roam_id iface now) (spec_of i) (p ∷ []) now s))
    | inr h ↦ rw h refl
  ]

  apply_roam-SameTable :
      (iface : String) (p : PeerSpec) (now : ℕ) (w : Place S)
      → SameTable w (apply_roam text roam_id c iface p now w)
  unfolding apply_roam SameTable
  apply_roam-SameTable iface p now w = elim (Option-cases w.netstate) [
    | inl h ↦ rw (apply_roam, h) refl
    | inr (net, h) ↦
        rw (apply_roam, h)
          (after_observe-SameTable iface p now net w (c.observe_interface iface w.host))
  ]

  remember-Roamed :
      (peer : NostrKey) (address : AddrPort) (now : ℕ) (s : SessionState) (w : Place S)
      (o : Outcome (Place S) RoamError (Unit {0}))
      → lookup peer w.manager.sessions ≡ some s
      → SameTable w o
      → Roamed peer address now w (remember text roam_id c peer (moved_session address now s) o)
  unfolding remember SameTable
  remember-Roamed peer address now s w (err e w') h k = k
  remember-Roamed peer address now s w (ok _ w') h k =
      put_session-Moved peer address now s w.manager w'.manager h k

  move_session-Roamed :
      (peer : NostrKey) (s : SessionState) (key : WireGuardKey) (address : AddrPort)
      (iface : String) (now : ℕ) (w : Place S)
      → lookup peer w.manager.sessions ≡ some s
      → Roamed peer address now w (move_session text roam_id c peer s key address iface now w)
  unfolding move_session
  move_session-Roamed peer s key address iface now w h =
      elim (Bool-cases (is_at s.endpoint address)) [
        | inl a ↦ rw a (stays_there peer address now s w.manager h a)
        | inr a ↦ elim (Bool-cases (no_prefixes s.allowed_ips)) [
          | inl n ↦ rw (a, n) refl
          | inr n ↦
              rw (a, n)
                (remember-Roamed peer address now s w
                  (apply_roam text roam_id c iface (roamed_peer key address s) now w) h
                  (apply_roam-SameTable iface (roamed_peer key address s) now w))
        ]
      ]

  -- A change of a peer's endpoint that succeeds leaves that peer's session at the address and as it
  -- was but for the endpoint and the count and time of roams, and every other session and the
  -- handshakes as they were; one that fails, for whatever reason, leaves the table as it was.
  pub change_endpoint-Roamed :
      (peer : NostrKey) (address : AddrPort) (iface : String) (observed : Bool) (now : ℕ)
      (w : Place S)
      → Roamed peer address now w (change_endpoint text roam_id c peer address iface observed now w)
  unfolding change_endpoint
  change_endpoint-Roamed peer address iface observed now w =
      elim (Option-cases (lookup peer w.manager.sessions)) [
        | inl h ↦ rw (change_endpoint, h) refl
        | inr (s, h) ↦ elim (Bool-cases (is_established s.phase)) [
          | inr p ↦ rw (change_endpoint, h, p) refl
          | inl p ↦ elim (Option-cases s.tunnel_public_key) [
            | inl k ↦ rw (change_endpoint, h, p, k) refl
            | inr (key, k) ↦
                elim (Bool-cases
                  (observed && is_too_soon now w.manager.min_roam_interval s.last_roam_at)) [
                    | inl t ↦ rw (change_endpoint, h, p, k, t) refl
                    | inr t ↦
                        rw (change_endpoint, h, p, k, t)
                          (move_session-Roamed peer s key address iface now w h)
                  ]
          ]
        ]
      ]
