-- ===== src/Tests/Recovery.antt =====
-- Taking the host down: runs of the theorems on recovery.
use nostmesh.Base.{arith, string_eq, [], ◌∷◌, true, false, ◌≡◌, refl, none, some, if◌then◌else◌}
use nostmesh.Base.Map.{lookup}
use nostmesh.Base.Outcome.{ok, value}
use nostmesh.Netstate.Journal.{
  create_interface, apply_peer, applying, applied, rolled_back, Operation, Transaction,
  needs_recovery, close, mark_rolled_back, update_status, update_first, written,
}
use nostmesh.Netstate.Planning.{planned_operation}
use nostmesh.Netstate.Store.{load, save, has_separator, write_atomic, list, pending_recovery}
use nostmesh.Wireguard.Port.{owns_interface, InterfaceState}
use nostmesh.Wireguard.Fake.{
  Fake, fake_controller, record_call, observe_interface, remove_interface, list_owned_interfaces,
  empty_interface,
}
use nostmesh.Recovery.Reconcile.{
  Reconciliation, Node, down, clear_host, remove_all, remove_one, reconcile_journal, close_all,
  mark_all,
}
use nostmesh.Recovery.Journals.{down_settles_journal}
use nostmesh.Recovery.Hosts.{Calm}
use nostmesh.Recovery.Down.{Closable, down_returns}

abbrev begun : Operation
begun = record (planned_operation apply_peer "peer" false 3) { status = applying }

abbrev interrupted : Transaction
interrupted = record {
  id = "tx";
  session_id = "";
  interface = "nm0";
  operations =
      record (planned_operation create_interface "nm0" false 3) { status = applied } ∷ begun ∷ [];
  started_at = 2;
  ended_at = none;
  committed = false;
}

abbrev ours : InterfaceState
ours = empty_interface "nm0" [] true

abbrev theirs : InterfaceState
theirs = empty_interface "eth0" [] false

abbrev host : Fake
host = record {
  interfaces = ("nm0", ours) ∷ ("eth0", theirs) ∷ [];
  fail_on = [];
  fail_next = [];
  fail_next_err = [];
  calls = [];
  handshake_on_apply = false;
  handshake_at = 0;
  routes = [];
}

abbrev node : Node Fake
node = record { host = host; journal = record { files = ("tx", interrupted) ∷ []; writes = [] } }

interrupted_is_pending : needs_recovery interrupted ≡ true
unfolding needs_recovery
interrupted_is_pending = refl

host-Calm : Calm host
host-Calm = record {
  none_fails = refl;
  none_fails_next = refl;
  named = λ n i h. ground (arith, string_eq.beq_iff "nm0" n, string_eq.beq_iff "eth0" n);
}

interrupted-Closable : Closable interrupted
unfolding has_separator planned_operation
interrupted-Closable = record { has_id = refl; plain_id = refl; distinct = (refl, (refl, tt)) }

down_returns_example :
    (r : Reconciliation) × ((n' : Node Fake) × ((down fake_controller 9 node ≡ ok r n')
        × (lookup "eth0" n'.host.interfaces
            ≡ (if owns_interface "eth0" then none else lookup "eth0" host.interfaces))))
down_returns_example = down_returns 9 node "eth0" host-Calm refl (interrupted-Closable, tt)

-- What is left of the transaction, and of the node.
abbrev settled : Transaction
settled = record interrupted {
  operations =
      record (planned_operation create_interface "nm0" false 3) { status = rolled_back }
      ∷ record (planned_operation apply_peer "peer" false 3) { status = rolled_back }
      ∷ [];
  ended_at = some 9;
}

abbrev cleared : Node Fake
cleared = record {
  host = record host {
    interfaces = ("eth0", theirs) ∷ [];
    calls = "ListOwnedInterfaces" ∷ "ObserveInterface" ∷ "RemoveInterface" ∷ [];
  };
  journal = record { files = ("tx", settled) ∷ []; writes = [] };
}

taken_down :
    down fake_controller 9 node
    ≡ ok (record { interrupted = settled ∷ []; removed = "nm0" ∷ []; kept = [] }) cleared
unfolding down clear_host remove_all remove_one reconcile_journal close_all mark_all fake_controller
    record_call observe_interface remove_interface list_owned_interfaces pending_recovery list
    needs_recovery save has_separator write_atomic mark_rolled_back update_status update_first
    written close owns_interface planned_operation
taken_down = refl

loaded : load "tx" cleared.journal ≡ value settled
unfolding load
loaded = refl

down_settles_journal_example : needs_recovery settled ≡ false
down_settles_journal_example =
    down_settles_journal fake_controller 9 node cleared
      (record { interrupted = settled ∷ []; removed = "nm0" ∷ []; kept = [] }) "tx" settled
      (record { named = refl; distinct = interrupted-Closable.distinct }, tt) taken_down loaded
