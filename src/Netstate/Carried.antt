-- ===== src/Netstate/Carried.antt =====
-- An interface that was there before an application is there while it is carried out.
use nostmesh.Base.{ℕ, String, string_eq, ◌≡◌, inl, inr, List, [], ◌∷◌, none, some, Bool-cases}
use nostmesh.Base.Outcome.{Outcome, ok, err, ◌>>◌, final, M, modify}
use nostmesh.Net.{Prefix}
use nostmesh.Wireguard.Port.{
  Controller, Call, InterfaceSpec, InterfaceState, PeerSpec, interface_not_found, peer_not_found,
  not_owned, other,
}
use nostmesh.Wireguard.Port
use nostmesh.Wireguard.Laws.{KeepsInterface}
use nostmesh.Netstate.Journal.{
  OperationKind, create_interface, configure_interface, add_address, set_link_up, apply_peer,
  add_route, is_kind, OperationStatus, is_applied, Operation, OperationId, new_operation_id,
  Transaction, update_first, update_status, mark_applying, mark_applied, mark_failed,
  mark_rolled_back, applied_operations, compensation_order, reversed_onto, commit, close,
  new_transaction, plan, written,
}
use nostmesh.Netstate.Journal
use nostmesh.Netstate.Planning.{Texts, Failure, Plan, touches_interface}
use nostmesh.Netstate.Manager.{
  Work, save, mark, begin, complete, maybe_inject, apply_step, ensure, nothing, apply_addresses,
  apply_interface, apply_peers, apply_routes, interface_steps, carry_out,
}
use nostmesh.Netstate.Steps.{Keeps, Keeps-then}
use nostmesh.Netstate.Kept.{Found, save-Found, inject-Found, mark-Found, Stays, step-Found}

module _ (text : Texts) {S : Type 0} (c : Controller S) (n : String) (there : S → Type 0)
    (keep : KeepsInterface c n there) where
  abbrev Held : Work S → Type 0
  Held = Found text c n there keep

  pub addresses-Found : (xs : List Prefix) (now : ℕ) → Keeps Held (apply_addresses text c xs now)
  unfolding apply_addresses begin complete mark_applying mark_applied
  addresses-Found [] now w u = u
  addresses-Found (a ∷ xs) now w u =
      let id = new_operation_id add_address (text.prefix_text a) in
      let begins = mark text c (update_status id Journal.applying none "") >> save text c in
      let completes = mark text c (update_status id Journal.applied (some now) "") >> save text c in
      Keeps-then Held begins (completes >> apply_addresses text c xs now)
        (Keeps-then Held (mark text c (update_status id Journal.applying none "")) (save text c)
          ((mark-Found text c n there keep) id Journal.applying none "")
          (save-Found text c n there keep))
        (Keeps-then Held completes (apply_addresses text c xs now)
          (Keeps-then Held (mark text c (update_status id Journal.applied (some now) ""))
            (save text c) ((mark-Found text c n there keep) id Journal.applied (some now) "")
            (save-Found text c n there keep))
          (addresses-Found xs now))
        w u

  pub peers-Found : (ps : List PeerSpec) (now : ℕ) → Keeps Held (apply_peers text c n ps now)
  unfolding apply_peers
  peers-Found [] now w u = u
  peers-Found (p ∷ ps) now w u =
      Keeps-then Held
        (apply_step text c apply_peer (c.apply_peer n p) (text.key_text p.public_key) now)
        (apply_peers text c n ps now)
        ((step-Found text c n there keep) apply_peer (c.apply_peer n p) (text.key_text p.public_key)
          now (keep.apply_peer_keeps p))
        (peers-Found ps now) w u

  pub routes-Found : (ps : List Prefix) (now : ℕ) → Keeps Held (apply_routes text c n ps now)
  unfolding apply_routes
  routes-Found [] now w u = u
  routes-Found (p ∷ ps) now w u =
      Keeps-then Held (apply_step text c add_route (c.add_route n p) (text.prefix_text p) now)
        (apply_routes text c n ps now)
        ((step-Found text c n there keep) add_route (c.add_route n p) (text.prefix_text p) now
          (keep.add_route_keeps p))
        (routes-Found ps now) w u

  pub ensure-Stays :
      (spec : InterfaceSpec) → spec.name ≡ n → (Stays text c n there keep) (ensure text c spec)
  ensure-Stays spec name s h = go (c.ensure_interface spec s) (keep.ensure_keeps spec s name h)
    where
      go :
          (o : Outcome S Port.Error InterfaceState)
          → there (final o)
          → there (
              final (elim o as (λ _. Outcome S Port.Error (Unit {0})) [
                | ok _ t ↦ ok tt t
                | err e t ↦ err e t
              ]))
      go (ok _ t) q = q
      go (err e t) q = q

  pub carry_out-Found :
      (p : Plan) (now : ℕ) → p.interface.name ≡ n → Keeps Held (carry_out text c p now)
  unfolding carry_out commit apply_interface
  carry_out-Found p now name w u =
      let configure = apply_step text c configure_interface (nothing text c) p.interface.name now in
      let link_up = apply_step text c set_link_up (nothing text c) p.interface.name now in
      let addresses = apply_addresses text c p.interface.addresses now in
      let rest = configure >> (link_up >> (addresses >> maybe_inject text c add_address)) in
      let peers = apply_peers text c p.interface.name p.peers now in
      let routes = apply_routes text c p.interface.name p.routes now in
      let committed : M (Work S) Failure (Unit {0}) =
        modify (λ w. record w { transaction = commit now w.transaction }) in
      Keeps-then Held (interface_steps text c p now)
        (peers >> (routes >> (committed >> save text c)))
        (λ w' u'. elim (Bool-cases (touches_interface p)) [
          | inr e ↦ rw (interface_steps, e) u'
          | inl e ↦
              rw (interface_steps, e)
                (Keeps-then Held
                  (apply_step text c create_interface (ensure text c p.interface) p.interface.name
                    now)
                  rest
                  ((step-Found text c n there keep) create_interface (ensure text c p.interface)
                    p.interface.name now (ensure-Stays p.interface name))
                  (Keeps-then Held configure
                    (link_up >> (addresses >> maybe_inject text c add_address))
                    ((step-Found text c n there keep) configure_interface (nothing text c)
                      p.interface.name now (λ s h. h))
                    (Keeps-then Held link_up (addresses >> maybe_inject text c add_address)
                      ((step-Found text c n there keep) set_link_up (nothing text c)
                        p.interface.name now (λ s h. h))
                      (Keeps-then Held addresses (maybe_inject text c add_address)
                        (addresses-Found p.interface.addresses now)
                        ((inject-Found text c n there keep) add_address))))
                  w' u')
        ])
        (rw name (
          Keeps-then Held (apply_peers text c n p.peers now)
            (apply_routes text c n p.routes now >> (committed >> save text c))
            (peers-Found p.peers now)
            (Keeps-then Held (apply_routes text c n p.routes now) (committed >> save text c)
              (routes-Found p.routes now)
              (Keeps-then Held committed (save text c)
                (λ w' u'. record { found = u'.found; named = u'.named; present = u'.present })
                (save-Found text c n there keep)))))
        w u
