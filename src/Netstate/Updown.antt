-- ===== src/Netstate/Updown.antt =====
-- An interface that was not there, while its operations are carried out: it is up or down.
use nostmesh.Base.{
  ℕ, String, string_eq, ◌≡◌, refl, ap, ◌∙◌, true, false, List, [], ◌∷◌, Option, none, some, arith,
}
use nostmesh.Base.Outcome.{Outcome, ok, err, ◌>>◌, final, Result, value, error}
use nostmesh.Net.{Prefix}
use nostmesh.Wireguard.Port.{Controller, Call, InterfaceSpec, PeerSpec}
use nostmesh.Wireguard.Port
use nostmesh.Wireguard.Laws.{Confined}
use nostmesh.Netstate.Journal.{
  OperationKind, create_interface, configure_interface, add_address, set_link_up, apply_peer,
  add_route, is_kind, kind_number, OperationStatus, is_applied, planned, applying, applied, failed,
  rolled_back, Operation, OperationId, new_operation_id, id_eq, Transaction, update_first,
  update_status, mark_applying, mark_applied, mark_failed, mark_rolled_back, applied_operations,
  compensation_order, reversed_onto,
}
use nostmesh.Netstate.Journal
use nostmesh.Netstate.Planning.{Texts, Failure}
use nostmesh.Netstate.Manager.{
  Work, save, mark, begin, complete, maybe_inject, call, apply_step, apply_addresses, apply_peers,
  apply_routes,
}
use nostmesh.Netstate.Steps.{
  Keeps, Keeps-then, save-transaction, maybe_inject-transaction, Created, head_applied, NoneApplied,
  update_first-Created, update_first-head, update_first-none, update_status-ok,
}

module _ (text : Texts) {S : Type 0} (c : Controller S) (conf : Confined c) (n : String)
    (v : conf.View) where
  -- The interface is up: the first operation is applied, and outside of it the host is as it was.
  pub record Up (w : Work S) : Type 0 where
    pub created : Created n w.transaction.operations
    pub named : w.transaction.interface ≡ n
    pub outside : conf.without n (conf.view w.host) ≡ v
    pub head : head_applied w.transaction.operations ≡ true

  -- The interface is not up: nothing is applied, and the host is as it was.
  pub record Down (w : Work S) : Type 0 where
    pub created : Created n w.transaction.operations
    pub named : w.transaction.interface ≡ n
    pub untouched : conf.view w.host ≡ v
    pub unapplied : NoneApplied w.transaction.operations

  pub Up-same : (w w' : Work S) → w'.transaction ≡ w.transaction → w'.host ≡ w.host → Up w → Up w'
  Up-same w w' t h u = record {
    created = rw t u.created;
    named = rw t u.named;
    outside = rw h u.outside;
    head = rw t u.head;
  }

  pub Down-same :
      (w w' : Work S) → w'.transaction ≡ w.transaction → w'.host ≡ w.host → Down w → Down w'
  Down-same w w' t h u = record {
    created = rw t u.created;
    named = rw t u.named;
    untouched = rw h u.untouched;
    unapplied = rw t u.unapplied;
  }

  pub save-Up : Keeps Up (save text c)
  save-Up w u = let (t, h) = save-transaction text c w in Up-same w (final (save text c w)) t h u

  pub save-Down : Keeps Down (save text c)
  save-Down w u =
      let (t, h) = save-transaction text c w in Down-same w (final (save text c w)) t h u

  pub inject-Up : (k : OperationKind) → Keeps Up (maybe_inject text c k)
  inject-Up k w u =
      let (t, h) = maybe_inject-transaction text c k w in
      Up-same w (final (maybe_inject text c k w)) t h u

  -- A mark of an operation of another kind.
  pub mark-Up :
      (id : OperationId) (st : OperationStatus) (at : Option ℕ) (m : String)
      → is_kind create_interface id.kind ≡ false
      → Keeps Up (mark text c (update_status id st at m))
  mark-Up id st at m k w u = go (update_status id st at m w.transaction) refl
    where
      go :
          (r : Result Journal.Error Transaction)
          → update_status id st at m w.transaction ≡ r
          → Up (
              final (elim r as (λ _. Outcome (Work S) Failure (Unit {0})) [
                | error e ↦ err (Failure.marking e) w
                | value t ↦ ok tt (record w { transaction = t })
              ]))
      go (error e) h = u
      go (value t) h =
          let (ops, found, same) = update_status-ok id st at m w.transaction t h in
          let (cr, hd) =
            update_first-Created n id st at m w.transaction.operations ops k found u.created in
          record {
            created = rw same cr;
            named = rw same u.named;
            outside = u.outside;
            head = rw (same, hd) u.head;
          }

  pub mark_failed-Up :
      (id : OperationId) (m : String)
      → is_kind create_interface id.kind ≡ false
      → Keeps Up (mark text c (mark_failed id m))
  unfolding mark_failed
  mark_failed-Up id m k = mark-Up id failed none m k

  pub begin-Up :
      (id : OperationId) → is_kind create_interface id.kind ≡ false → Keeps Up (begin text c id)
  unfolding begin mark_applying
  begin-Up id k =
      Keeps-then Up (mark text c (mark_applying id)) (save text c) (mark-Up id applying none "" k)
        save-Up

  pub complete-Up :
      (id : OperationId) (now : ℕ)
      → is_kind create_interface id.kind ≡ false
      → Keeps Up (complete text c id now)
  unfolding complete mark_applied
  complete-Up id now k =
      Keeps-then Up (mark text c (mark_applied id now)) (save text c)
        (mark-Up id applied (some now) "" k) save-Up

  -- A mark of the first operation succeeds; it says whether the interface is up.
  pub mark_head :
      (st : OperationStatus) (at : Option ℕ) (m : String) (w : Work S)
      → Created n w.transaction.operations
      → (ops : List Operation) × (mark text c
            (update_status (new_operation_id create_interface n) st at m)
            w
          ≡ ok tt (record w { transaction = record (w.transaction) { operations = ops } }))
        × (update_first (new_operation_id create_interface n) st at m w.transaction.operations
            ≡ some ops)
        × Created n ops
        × (head_applied ops ≡ is_applied st)
  unfolding update_status
  mark_head st at m w cr =
      let (ops, e, cr', hd) = update_first-head n st at m w.transaction.operations cr in
      (ops, ground arith, e, cr', hd)

  pub mark_head-Down :
      (st : OperationStatus) (at : Option ℕ) (m : String)
      → is_applied st ≡ false
      → Keeps Down (mark text c (update_status (new_operation_id create_interface n) st at m))
  mark_head-Down st at m s w d =
      let (ops, e, found, cr, hd) = mark_head st at m w d.created in
      rw e (record {
        created = cr;
        named = d.named;
        untouched = d.untouched;
        unapplied =
            update_first-none (new_operation_id create_interface n) st at m w.transaction.operations
              ops s found d.unapplied;
      })

  -- A call that stays within the interface.
  abbrev pub StaysIn : Call S (Unit {0}) → Type 0
  StaysIn f = (s : S) → conf.without n (conf.view (final (f s))) ≡ conf.without n (conf.view s)

  pub call-Up :
      (id : OperationId) (f : Call S (Unit {0}))
      → is_kind create_interface id.kind ≡ false
      → StaysIn f
      → Keeps Up (call text c id f)
  unfolding call
  call-Up id f k stays w u = go (f w.host) refl
    where
      go :
          (o : Outcome S Port.Error (Unit {0}))
          → f w.host ≡ o
          → Up (
              final (elim o as (λ _. Outcome (Work S) Failure (Unit {0})) [
                | ok _ s ↦ ok tt (record w { host = s })
                | err e s ↦
                    let marked =
                      final (
                        mark text c (mark_failed id (text.error_text e)) (record w { host = s })) in
                    err (Failure.calling id.kind e) (final (save text c marked))
              ]))
      go (ok _ s) h = record {
        created = u.created;
        named = u.named;
        outside =
            rw (← ap (λ o. conf.without n (conf.view (final o))) h) (stays w.host ∙ u.outside);
        head = u.head;
      }
      go (err e s) h =
          let u' : Up (record w { host = s }) = record {
            created = u.created;
            named = u.named;
            outside =
                rw (← ap (λ o. conf.without n (conf.view (final o))) h) (stays w.host ∙ u.outside);
            head = u.head;
          } in
          save-Up _ (mark_failed-Up id (text.error_text e) k (record w { host = s }) u')

  pub step-Up :
      (k : OperationKind) (f : Call S (Unit {0})) (target : String) (now : ℕ)
      → is_kind create_interface k ≡ false
      → StaysIn f
      → Keeps Up (apply_step text c k f target now)
  unfolding apply_step
  step-Up k f target now other stays =
      let id = new_operation_id k target in
      Keeps-then Up (begin text c id)
        (call text c id f >> (complete text c id now >> maybe_inject text c k)) (begin-Up id other)
        (Keeps-then Up (call text c id f) (complete text c id now >> maybe_inject text c k)
          (call-Up id f other stays)
          (Keeps-then Up (complete text c id now) (maybe_inject text c k) (complete-Up id now other)
            (inject-Up k)))

  pub addresses-Up : (xs : List Prefix) (now : ℕ) → Keeps Up (apply_addresses text c xs now)
  unfolding apply_addresses
  addresses-Up [] now w u = u
  addresses-Up (a ∷ xs) now w u =
      let id = new_operation_id add_address (text.prefix_text a) in
      Keeps-then Up (begin text c id) (complete text c id now >> apply_addresses text c xs now)
        (begin-Up id refl)
        (Keeps-then Up (complete text c id now) (apply_addresses text c xs now)
          (complete-Up id now refl) (addresses-Up xs now))
        w u

  pub peers-Up : (ps : List PeerSpec) (now : ℕ) → Keeps Up (apply_peers text c n ps now)
  unfolding apply_peers
  peers-Up [] now w u = u
  peers-Up (p ∷ ps) now w u =
      Keeps-then Up
        (apply_step text c apply_peer (c.apply_peer n p) (text.key_text p.public_key) now)
        (apply_peers text c n ps now)
        (step-Up apply_peer (c.apply_peer n p) (text.key_text p.public_key) now refl
          (conf.apply_peer_confined n p))
        (peers-Up ps now) w u

  pub routes-Up : (ps : List Prefix) (now : ℕ) → Keeps Up (apply_routes text c n ps now)
  unfolding apply_routes
  routes-Up [] now w u = u
  routes-Up (p ∷ ps) now w u =
      Keeps-then Up (apply_step text c add_route (c.add_route n p) (text.prefix_text p) now)
        (apply_routes text c n ps now)
        (step-Up add_route (c.add_route n p) (text.prefix_text p) now refl
          (conf.add_route_confined n p))
        (routes-Up ps now) w u
