-- ===== src/Netstate/Manager.antt =====
-- The manager applies a plan, and undoes it in reverse when a step fails
-- (internal/netstate/manager.go). One reading of the clock stands for those of a call; logging is
-- left out.
use nostmesh.Base.{ℕ, String, string_eq, List, [], ◌∷◌, Option, none, some, if◌then◌else◌}
use nostmesh.Base.Outcome.{Outcome, ok, err, ◌>>◌, pure, modify, final, M, Result, value, error}
use nostmesh.Net.{Prefix}
use nostmesh.Wireguard.Port.{Controller, InterfaceSpec, PeerSpec, Call}
use nostmesh.Wireguard.Port
use nostmesh.Netstate.Journal.{
  OperationKind, create_interface, configure_interface, add_address, set_link_up, apply_peer,
  add_route, is_kind, Operation, OperationId, new_operation_id, Transaction, new_transaction, plan,
  mark_applying, mark_applied, mark_failed, mark_rolled_back, commit, close, compensation_order,
}
use nostmesh.Netstate.Journal
use nostmesh.Netstate.Store.{JournalStore}
use nostmesh.Netstate.Store
use nostmesh.Netstate.Planning.{
  Texts, Failure, bad_key, bad_prefix, calling, recording, marking, injected, Plan,
  touches_interface,
}

-- What an application works on: the transaction in memory, the host, the journal on disk, where
-- there is one, and the failure that a caller asked for.
pub record Work (S : Type 0) : Type 0 where
  pub transaction : Transaction
  pub host : S
  pub journal : Option JournalStore
  pub inject : Option OperationKind

-- An application that fails says what failed, and what could not be undone; one that fails before
-- its first step undoes nothing.
pub data ApplyError : Type 0 where
  refused : Failure → ApplyError
  rolled : Failure → List Failure → ApplyError

module _ (text : Texts) {S : Type 0} (c : Controller S) where
  abbrev pub W : Type 0 → Type 0
  W A = M (Work S) Failure A

  unfoldable pub save : W (Unit {0})
  save w = elim w.journal [
    | none ↦ ok tt w
    | some j ↦ elim (Store.save w.transaction j) [
      | ok _ j' ↦ ok tt (record w { journal = some j' })
      | err e j' ↦ err (recording e) (record w { journal = some j' })
    ]
  ]

  abbrev pub mark : (Transaction → Result Journal.Error Transaction) → W (Unit {0})
  mark f w = elim (f w.transaction) [
    | error e ↦ err (marking e) w
    | value t ↦ ok tt (record w { transaction = t })
  ]

  unfoldable pub begin : OperationId → W (Unit {0})
  unfolding save
  begin id = do mark (mark_applying id); save

  unfoldable pub complete : OperationId → ℕ → W (Unit {0})
  unfolding save
  complete id now = do mark (mark_applied id now); save

  unfoldable pub maybe_inject : OperationKind → W (Unit {0})
  maybe_inject kind w = elim w.inject [
    | none ↦ ok tt w
    | some k ↦ if is_kind k kind then err (injected kind) (record w { inject = none }) else ok tt w
  ]

  -- A call of the controller. When it fails the operation is marked and the journal saved, and
  -- errors of these two are dropped.
  unfoldable pub call : {A : Type 0} → OperationId → Call S A → W (Unit {0})
  unfolding save
  call id f w = elim (f w.host) [
    | ok _ s ↦ ok tt (record w { host = s })
    | err e s ↦
        let marked = final (mark (mark_failed id (text.error_text e)) (record w { host = s })) in
        err (calling id.kind e) (final (save marked))
  ]

  -- One turn of the first loop of `applyInterface`.
  unfoldable pub apply_step : OperationKind → Call S (Unit {0}) → String → ℕ → W (Unit {0})
  unfolding begin call complete maybe_inject
  apply_step kind f target now = do
    begin (new_operation_id kind target)
    call (new_operation_id kind target) f
    complete (new_operation_id kind target) now
    maybe_inject kind

  -- EnsureInterface, with its answer left out.
  abbrev pub ensure : InterfaceSpec → Call S (Unit {0})
  ensure spec s = elim (c.ensure_interface spec s) [ ok _ t ↦ ok tt t | err e t ↦ err e t ]

  -- A step that calls nothing.
  abbrev pub nothing : Call S (Unit {0})
  nothing s = ok tt s

  unfoldable pub apply_addresses : List Prefix → ℕ → W (Unit {0})
  unfolding begin complete
  apply_addresses [] now = pure tt
  apply_addresses (a ∷ rest) now = do
    begin (new_operation_id add_address (text.prefix_text a))
    complete (new_operation_id add_address (text.prefix_text a)) now
    apply_addresses rest now

  unfoldable pub apply_interface : Plan → ℕ → W (Unit {0})
  unfolding apply_step apply_addresses maybe_inject
  apply_interface p now = do
    apply_step create_interface (ensure p.interface) p.interface.name now
    apply_step configure_interface nothing p.interface.name now
    apply_step set_link_up nothing p.interface.name now
    apply_addresses p.interface.addresses now
    maybe_inject add_address

  unfoldable pub apply_peers : String → List PeerSpec → ℕ → W (Unit {0})
  unfolding apply_step
  apply_peers iface [] now = pure tt
  apply_peers iface (p ∷ ps) now = do
    apply_step apply_peer (c.apply_peer iface p) (text.key_text p.public_key) now
    apply_peers iface ps now

  unfoldable pub apply_routes : String → List Prefix → ℕ → W (Unit {0})
  unfolding apply_step
  apply_routes iface [] now = pure tt
  apply_routes iface (p ∷ ps) now = do
    apply_step add_route (c.add_route iface p) (text.prefix_text p) now
    apply_routes iface ps now

  -- What a call of the controller adds to the problems.
  abbrev pub answer : OperationKind → Outcome S Port.Error (Unit {0}) → Option Failure × S
  answer kind (ok _ t) = (none, t)
  answer kind (err e t) = (some (calling kind e), t)

  -- What is subsumed by removing the interface is not undone on its own.
  unfoldable pub undo : OperationKind → String → String → S → Option Failure × S
  undo create_interface iface target s = answer create_interface (c.remove_interface iface s)
  undo apply_peer iface target s = elim (text.parse_key target) [
    | none ↦ (some bad_key, s)
    | some key ↦ answer apply_peer (c.remove_peer iface key s)
  ]
  undo add_route iface target s = elim (text.parse_prefix target) [
    | none ↦ (some bad_prefix, s)
    | some prefix ↦ answer add_route (c.remove_route iface prefix s)
  ]
  undo configure_interface iface target s = (none, s)
  undo set_link_up iface target s = (none, s)
  undo add_address iface target s = (none, s)

  -- One turn of the loop of `compensate`; an error of the mark is dropped.
  unfoldable pub compensate_one : Operation → Work S → Option Failure × Work S
  unfolding undo
  compensate_one op w =
      let (problem, s) = undo op.kind w.transaction.interface op.target w.host in
      if op.existed then (none, final (mark (mark_rolled_back op.id) w)) else elim problem [
        | some f ↦ (some f, record w { host = s })
        | none ↦ (none, final (mark (mark_rolled_back op.id) (record w { host = s })))
      ]

  abbrev pub with_problem : Option Failure → List Failure → List Failure
  with_problem none fs = fs
  with_problem (some f) fs = f ∷ fs

  unfoldable pub compensate_all : List Operation → Work S → List Failure × Work S
  unfolding compensate_one
  compensate_all [] w = ([], w)
  compensate_all (op ∷ ops) w =
      let (problem, w') = compensate_one op w in
      let (problems, w'') = compensate_all ops w' in (with_problem problem problems, w'')

  unfoldable pub compensate : Work S → List Failure × Work S
  unfolding compensate_all
  compensate w = compensate_all (compensation_order w.transaction) w

  unfoldable pub plan_all : List Operation → ℕ → W (Unit {0})
  plan_all [] now = pure tt
  plan_all (op ∷ ops) now = do mark (plan op now); plan_all ops now

  abbrev pub interface_steps : Plan → ℕ → W (Unit {0})
  interface_steps p now w = if touches_interface p then apply_interface p now w else ok tt w

  -- What runs once the plan is recorded, up to the commit.
  unfoldable pub carry_out : Plan → ℕ → W (Unit {0})
  unfolding apply_interface apply_peers apply_routes save
  carry_out p now = do
    interface_steps p now
    apply_peers p.interface.name p.peers now
    apply_routes p.interface.name p.routes now
    modify (λ w. record w { transaction = commit now w.transaction })
    save

  -- The deferred function: what was applied is undone, and the transaction closed and saved, where an
  -- error of the last save is dropped.
  unfoldable pub roll_back : Failure → ℕ → Work S → Outcome (Work S) ApplyError Transaction
  unfolding compensate save
  roll_back f now w =
      let (problems, w') = compensate w in
      err (rolled f problems) (final (save (record w' { transaction = close now w'.transaction })))

  unfoldable pub opened : Plan → ℕ → Work S → Work S
  opened p now w = record w { transaction = new_transaction p.transaction_id p.interface.name now }

  unfoldable pub apply : Plan → ℕ → Work S → Outcome (Work S) ApplyError Transaction
  unfolding plan_all carry_out roll_back opened save
  apply p now w = elim ((plan_all p.operations now >> save) (opened p now w)) [
    | err f w' ↦ err (refused f) w'
    | ok _ w' ↦ elim (carry_out p now w') [
      | err f w'' ↦ roll_back f now w''
      | ok _ w'' ↦ ok w''.transaction w''
    ]
  ]

  unfoldable pub remove : String → Call S (Unit {0})
  remove iface s = c.remove_interface iface s

  unfoldable pub remove_route : String → Prefix → Call S (Unit {0})
  remove_route iface prefix s = c.remove_route iface prefix s
