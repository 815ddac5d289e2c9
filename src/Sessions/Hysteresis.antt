-- ===== src/Sessions/Hysteresis.antt =====
-- A roam holds for a while.
use nostmesh.Base.{
  ℕ, ◌+◌, String, ◌≡◌, refl, ap, subst, sym, ◌∙◌, Bool, true, false, Option, none, some, ltb, arith,
  Option-cases, Bool-cases, inl, inr, neg_part, pos_part, ℕ_eq,
}
use nostmesh.Base.Map.{lookup}
use nostmesh.Base.Outcome.{ok, final}
use nostmesh.Net.{AddrPort, addr_port_eq}
use nostmesh.Session.Types.{NostrKey}
use nostmesh.Wireguard.Port.{Controller}
use nostmesh.Netstate.Planning.{Texts}
use nostmesh.Sessions.Table.{SessionState, is_established}
use nostmesh.Sessions.Roam.{Place, is_too_soon, is_at, change_endpoint, record_observed_endpoint}
use nostmesh.Sessions.Moves.{Moved, Roamed, change_endpoint-Roamed}

was_elsewhere :
    {o : Option AddrPort} {address : AddrPort} → o ≡ some address → ¬ (is_at o address ≡ false)
was_elsewhere {o = o} {address = address} e f =
    absurd
      (ground (arith, (addr_port_eq.beq_iff address address).1 refl, ap (λ x. is_at x address) e))

module _ (text : Texts) (roam_id : String → ℕ → String) {S : Type 0} (c : Controller S) where
  too_soon_refuses :
      (peer : NostrKey) (address : AddrPort) (iface : String) (now last : ℕ) (s : SessionState)
      (w : Place S)
      → lookup peer w.manager.sessions ≡ some s
      → s.last_roam_at ≡ some last
      → ltb
          (now + neg_part w.manager.min_roam_interval)
          (last + pos_part w.manager.min_roam_interval)
        ≡ true
      → final (record_observed_endpoint text roam_id c peer address iface now w) ≡ w
  unfolding record_observed_endpoint change_endpoint is_too_soon
  too_soon_refuses peer address iface now last s w h l t =
      elim (Bool-cases (is_established s.phase)) [
        | inr p ↦ rw (record_observed_endpoint, change_endpoint, h, p) refl
        | inl p ↦ elim (Option-cases s.tunnel_public_key) [
          | inl k ↦ rw (record_observed_endpoint, change_endpoint, h, p, k) refl
          | inr (key, k) ↦
              rw (record_observed_endpoint, change_endpoint, h, p, k, is_too_soon, l, t) refl
        ]
      ]

  -- Once a session has moved to another address, an observed change of it is refused, and neither
  -- the table nor the host is touched, until the interval has passed.
  pub change_endpoint-record_observed_endpoint :
      (peer : NostrKey) (address other : AddrPort) (iface : String) (observed : Bool) (at now : ℕ)
      (s : SessionState) (w w' : Place S)
      → lookup peer w.manager.sessions ≡ some s
      → is_at s.endpoint address ≡ false
      → change_endpoint text roam_id c peer address iface observed at w ≡ ok tt w'
      → ltb (now + neg_part w.manager.min_roam_interval) (at + pos_part w.manager.min_roam_interval)
        ≡ true
      → final (record_observed_endpoint text roam_id c peer other iface now w') ≡ w'
  change_endpoint-record_observed_endpoint peer address other iface observed at now s w w' h away e
        t =
      let m : Moved peer address at w.manager w'.manager =
        subst (λ o. Roamed peer address at w o) e
          (change_endpoint-Roamed text roam_id c peer address iface observed at w) in
      let old : m.before ≡ s = ap (λ o. elim o [ none ↦ s | some x ↦ x ]) (sym m.was ∙ h) in
      elim m.stamped [
        | inl same ↦
            absurd (was_elsewhere (sym (ap (λ x. x.endpoint) old) ∙ sym same ∙ m.arrived) away)
        | inr stamped ↦
            too_soon_refuses peer other iface now at m.after w' m.is stamped
              (subst (λ i. ltb (now + neg_part i) (at + pos_part i) ≡ true) (sym m.interval) t)
      ]
