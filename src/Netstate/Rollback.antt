-- ===== src/Netstate/Rollback.antt =====
-- What an application that fails on an interface that was not there leaves of the host.
use nostmesh.Base.{
  ◌⊎◌, ℕ, String, string_eq, ◌≡◌, inl, inr, refl, ap, ◌∙◌, true, false, List, [], ◌∷◌, filter,
  Option, none, some, arith, Option-cases, Bool-cases,
}
use nostmesh.Base.Outcome.{Outcome, ok, err, ◌>>◌, final, M, modify}
use nostmesh.Wireguard.Port.{Controller, Call, InterfaceSpec, PeerSpec}
use nostmesh.Wireguard.Port
use nostmesh.Wireguard.Laws.{Confined}
use nostmesh.Netstate.Journal.{
  OperationKind, create_interface, configure_interface, add_address, set_link_up, apply_peer,
  add_route, is_applied, Operation, OperationId, Transaction, update_status, mark_rolled_back,
  applied_operations, compensation_order, reversed_onto, commit,
}
use nostmesh.Netstate.Planning.{Texts, Failure, Plan, touches_interface}
use nostmesh.Netstate.Manager.{
  Work, save, mark, maybe_inject, apply_step, ensure, nothing, apply_addresses, apply_interface,
  apply_peers, apply_routes, interface_steps, carry_out, undo, compensate_one, compensate_all,
  compensate, with_problem,
}
use nostmesh.Netstate.Steps.{Keeps, Keeps-then, Ends, Ends-then, Keeps-Ends, Created, head_applied}
use nostmesh.Netstate.Updown.{
  Up, Down, StaysIn, save-Up, inject-Up, step-Up, addresses-Up, peers-Up, routes-Up,
}
use nostmesh.Netstate.Rising.{Settled, create-Settled}

module _ (text : Texts) {S : Type 0} (c : Controller S) (conf : Confined c) (p : Plan)
    (v : conf.View) (absent : conf.without p.interface.name v ≡ v) where
  abbrev IsUp : Work S → Type 0
  IsUp = Up text c conf p.interface.name v

  abbrev IsDown : Work S → Type 0
  IsDown = Down text c conf p.interface.name v

  abbrev IsSettled : Failure → Work S → Type 0
  IsSettled = Settled text c conf p.interface.name v

  meanwhile : (m : M (Work S) Failure (Unit {0})) → Keeps IsUp m → Ends IsUp IsUp IsSettled m
  meanwhile m h = Keeps-Ends IsUp IsSettled m h (λ f w u. inl u)

  interface-Settled : (now : ℕ) → Ends IsDown IsUp IsSettled (apply_interface text c p now)
  unfolding apply_interface
  interface-Settled now =
      let n = p.interface.name in
      let configure = apply_step text c configure_interface (nothing text c) n now in
      let link_up = apply_step text c set_link_up (nothing text c) n now in
      let addresses = apply_addresses text c p.interface.addresses now in
      let stays : StaysIn text c conf n v (nothing text c) = λ s. refl in
      Ends-then IsDown IsUp IsUp IsSettled
        (apply_step text c create_interface (ensure text c p.interface) n now)
        (configure >> (link_up >> (addresses >> maybe_inject text c add_address)))
        (create-Settled text c conf n v p.interface now refl absent)
        (meanwhile (configure >> (link_up >> (addresses >> maybe_inject text c add_address))) (
          Keeps-then IsUp configure (link_up >> (addresses >> maybe_inject text c add_address))
            (step-Up text c conf n v configure_interface (nothing text c) n now refl stays)
            (Keeps-then IsUp link_up (addresses >> maybe_inject text c add_address)
              (step-Up text c conf n v set_link_up (nothing text c) n now refl stays)
              (Keeps-then IsUp addresses (maybe_inject text c add_address)
                (addresses-Up text c conf n v p.interface.addresses now)
                (inject-Up text c conf n v add_address)))))

  pub carry_out-Settled :
      (now : ℕ) → touches_interface p ≡ true → Ends IsDown IsUp IsSettled (carry_out text c p now)
  unfolding carry_out commit
  carry_out-Settled now touches =
      let n = p.interface.name in
      let peers = apply_peers text c n p.peers now in
      let routes = apply_routes text c n p.routes now in
      let committed : M (Work S) Failure (Unit {0}) =
        modify (λ w. record w { transaction = commit now w.transaction }) in
      Ends-then IsDown IsUp IsUp IsSettled (interface_steps text c p now)
        (peers >> (routes >> (committed >> save text c)))
        (λ w d. rw (interface_steps, touches) (interface-Settled now w d))
        (meanwhile (peers >> (routes >> (committed >> save text c))) (
          Keeps-then IsUp peers (routes >> (committed >> save text c))
            (peers-Up text c conf n v p.peers now)
            (Keeps-then IsUp routes (committed >> save text c)
              (routes-Up text c conf n v p.routes now)
              (Keeps-then IsUp committed (save text c)
                (λ w u. record {
                  created = u.created;
                  named = u.named;
                  outside = u.outside;
                  head = u.head;
                })
                (save-Up text c conf n v)))))

  -- The host outside of the interface, while operations are undone.
  record Undoing (w : Work S) : Type 0 where
    interface : w.transaction.interface ≡ p.interface.name
    outside : conf.without p.interface.name (conf.view w.host) ≡ v

  rolled_mark-same :
      (id : OperationId) (w : Work S)
      → ((final (mark text c (mark_rolled_back id) w)).transaction.interface
          ≡ w.transaction.interface)
        × ((final (mark text c (mark_rolled_back id) w)).host ≡ w.host)
  unfolding mark_rolled_back update_status
  rolled_mark-same id w = ground arith

  undo-Undoing :
      (k : OperationKind) (target : String) (s : S)
      → conf.without p.interface.name (conf.view (undo text c k p.interface.name target s).1)
        ≡ conf.without p.interface.name (conf.view s)
  unfolding undo
  undo-Undoing create_interface target s =
      ground (arith, conf.remove_interface_confined p.interface.name s)
  undo-Undoing apply_peer target s = elim (Option-cases (text.parse_key target)) [
    | inl e ↦ ground arith
    | inr (key, e) ↦ ground (arith, conf.remove_peer_confined p.interface.name key s)
  ]
  undo-Undoing add_route target s = elim (Option-cases (text.parse_prefix target)) [
    | inl e ↦ ground arith
    | inr (q, e) ↦ ground (arith, conf.remove_route_confined p.interface.name q s)
  ]
  undo-Undoing _ target s = refl

  compensate_one-Undoing :
      (op : Operation) (w : Work S) → Undoing w → Undoing (compensate_one text c op w).1
  unfolding compensate_one
  compensate_one-Undoing op w u = elim (Bool-cases op.existed) [
    | inl e ↦
        let (i, h) = rolled_mark-same op.id w in
        rw e (record { interface = i ∙ u.interface; outside = rw h u.outside })
    | inr e ↦
        let s = (undo text c op.kind w.transaction.interface op.target w.host).1 in
        let kept : conf.without p.interface.name (conf.view s) ≡ v =
          rw u.interface (undo-Undoing op.kind op.target w.host ∙ u.outside) in
        let (i, h) = rolled_mark-same op.id (record w { host = s }) in
        elim (Option-cases (undo text c op.kind w.transaction.interface op.target w.host).0) [
          | inl x ↦ rw (e, x) (record { interface = i ∙ u.interface; outside = rw h kept })
          | inr (f, x) ↦ rw (e, x) (record { interface = u.interface; outside = kept })
        ]
  ]

  -- The last operation to undo is the creation of an interface that was not there.
  abbrev LastCreates : List Operation → Type 0
  LastCreates [] = ⊥
  LastCreates (op ∷ []) = (op.kind ≡ create_interface) × (op.existed ≡ false)
  LastCreates (op ∷ (op' ∷ ops)) = LastCreates (op' ∷ ops)

  with_problem-nil :
      (f : Option Failure) (fs : List Failure) → with_problem text c f fs ≡ [] → fs ≡ []
  with_problem-nil none fs h = h
  with_problem-nil (some f) fs h = absurd (ground arith)

  undo-creates :
      (op : Operation) (w : Work S) (problem : Option Failure) (t : S)
      → Undoing w
      → op.kind ≡ create_interface
      → undo text c op.kind w.transaction.interface op.target w.host ≡ (problem, t)
      → problem ≡ none
      → conf.view t ≡ v
  unfolding undo
  undo-creates op w problem t u k h n = go (c.remove_interface p.interface.name w.host) refl
    where
      go :
          (o : Outcome S Port.Error (Unit {0}))
          → c.remove_interface p.interface.name w.host ≡ o
          → conf.view t ≡ v
      go (ok _ s) e =
          let same : s ≡ t = ground (arith, u.interface) in
          rw same at (conf.remove_interface_gone p.interface.name w.host s e ∙ u.outside)
      go (err z s) e = absurd (ground (arith, u.interface))

  compensate_one-creates :
      (op : Operation) (w : Work S)
      → Undoing w
      → op.kind ≡ create_interface
      → op.existed ≡ false
      → (compensate_one text c op w).0 ≡ none
      → conf.view (compensate_one text c op w).1.host ≡ v
  unfolding compensate_one
  compensate_one-creates op w u k x h =
      let r = undo text c op.kind w.transaction.interface op.target w.host in
      elim (Option-cases (r.0)) [
        | inr (f, e) ↦ absurd (ground arith)
        | inl e ↦
            let (i, same) = rolled_mark-same op.id (record w { host = r.1 }) in
            rw (x, e) (ap conf.view same ∙ undo-creates op w (r.0) (r.1) u k refl e)
      ]

  compensate_all-view :
      (ops : List Operation) (w : Work S)
      → Undoing w
      → LastCreates ops
      → (compensate_all text c ops w).0 ≡ []
      → conf.view (compensate_all text c ops w).1.host ≡ v
  unfolding compensate_all
  compensate_all-view [] w u l h = elim l [ ]
  compensate_all-view (op ∷ []) w u (k, x) h = compensate_one-creates op w u k x (ground arith)
  compensate_all-view (op ∷ (op' ∷ ops)) w u l h =
      compensate_all-view (op' ∷ ops) (compensate_one text c op w).1 (compensate_one-Undoing op w u)
        l (with_problem-nil (compensate_one text c op w).0 _ h)

  reversed_onto-LastCreates :
      (ops rest : List Operation) → LastCreates rest → LastCreates (reversed_onto ops rest)
  unfolding reversed_onto
  reversed_onto-LastCreates [] rest l = l
  reversed_onto-LastCreates (op ∷ ops) [] l = elim l [ ]
  reversed_onto-LastCreates (op ∷ ops) (r ∷ rest) l =
      reversed_onto-LastCreates ops (op ∷ (r ∷ rest)) l

  compensation_order-LastCreates :
      (t : Transaction)
      → Created p.interface.name t.operations
      → head_applied t.operations ≡ true
      → LastCreates (compensation_order t)
  unfolding compensation_order applied_operations reversed_onto
  compensation_order-LastCreates t cr hd = go t.operations cr hd
    where
      go :
          (ops : List Operation)
          → Created p.interface.name ops
          → head_applied ops ≡ true
          → LastCreates (reversed_onto (filter (λ op. is_applied op.status) ops) [])
      go [] cr hd = elim cr [ ]
      go (op ∷ ops) (i, k, x) hd =
          rw hd (reversed_onto-LastCreates (filter (λ o. is_applied o.status) ops) (op ∷ []) (k, x))

  -- What undoing leaves of a host after a failure: everything outside of the interface, and also
  -- the interface, unless it could not be made.
  abbrev pub Back : Failure → S → Type 0
  Back f s =
      (conf.without p.interface.name (conf.view s) ≡ v)
      × ((conf.view s ≡ v) ⊎ ((e : Port.Error) × (f ≡ Failure.calling create_interface e)))

  pub view-Back : (f : Failure) (s : S) → conf.view s ≡ v → Back f s
  view-Back f s h = (rw h absent, inl h)

  pub compensate-Back :
      (f : Failure) (w : Work S)
      → IsSettled f w
      → (compensate text c w).0 ≡ []
      → Back f (compensate text c w).1.host
  unfolding compensate compensation_order applied_operations
  compensate-Back f w (inl u) h = view-Back f (compensate text c w).1.host (
      compensate_all-view (compensation_order w.transaction) w
        (record { interface = u.named; outside = u.outside })
        (compensation_order-LastCreates w.transaction u.created u.head) h)
  compensate-Back f w (inr (inl d)) h =
      view-Back f (compensate text c w).1.host
        (rw (d.unapplied, reversed_onto, compensate_all) d.untouched)
  compensate-Back f w (inr (inr u)) h =
      let same : conf.view (compensate text c w).1.host ≡ u.left =
        rw (u.down.unapplied, reversed_onto, compensate_all) u.down.untouched in
      (rw same u.outside, inr (u.problem, u.cause))
