-- ===== src/Tests/Netstate.antt =====
-- A tunnel that is brought up, and one that cannot be: runs of the theorems on the manager.
use nostmesh.Base.{◌⊎◌, string_eq, pos, [], ◌∷◌, true, false, ◌≡◌, refl, none, some}
use nostmesh.Base.Map.{has}
use nostmesh.Base.Outcome.{Outcome, ok, err, final}
use nostmesh.Net.{Prefix, v4}
use nostmesh.Netstate.Journal.{
  create_interface, new_transaction, needs_recovery, mark_applying, mark_applied, mark_failed,
  mark_rolled_back, update_status, update_first, written, commit, close, applied_operations,
  reversed_onto, compensation_order, Transaction, plan, new_operation_id,
}
use nostmesh.Netstate.Journal
use nostmesh.Netstate.Planning.{
  Failure, Texts, Plan, injected, plan_for, plan_interface, planned_operation, touches_interface,
  contains_prefix, contains_peer,
}
use nostmesh.Netstate.Manager.{
  Work, ApplyError, rolled, save, begin, complete, maybe_inject, call, apply_step, apply_addresses,
  apply_interface, apply_peers, apply_routes, undo, compensate_one, compensate_all, compensate,
  plan_all, carry_out, roll_back, opened, apply,
}
use nostmesh.Netstate.Undone.{plan_apply_spared}
use nostmesh.Netstate.Found.{plan_apply_found}
use nostmesh.Netstate.Store.{JournalStore}
use nostmesh.Netstate.Store.{JournalStore}
use nostmesh.Netstate.Ahead.{Recorded, begin-Recorded}
use nostmesh.Netstate.Store
use nostmesh.Wireguard.Port
use nostmesh.Wireguard.Port.{zeros, owns_interface, InterfaceSpec, PeerSpec}
use nostmesh.Wireguard.Fake.{
  Fake, new_fake, fake_controller, empty_interface, record_call, observe_interface,
  ensure_interface, apply_peer, remove_peer, remove_interface, updated_peer, new_peer, upsert_peer,
}
use nostmesh.Wireguard.Fake
use nostmesh.Wireguard.Memory.{fake_confined, Carries, fake_keeps}

abbrev text : Texts
text = record {
  key_text = λ _. "key";
  parse_key = λ _. some (zeros 32);
  prefix_text = λ _. "prefix";
  parse_prefix = λ _. none;
  error_text = λ _. "failed";
}

abbrev address : Prefix
address = record { addr = record { family = v4; value = 167_772_161 }; bits_plus_one = 33 }

abbrev tunnel : InterfaceSpec
tunnel = record {
  name = "nm0";
  private_key = zeros 32;
  listen_port = pos 51820;
  addresses = address ∷ [];
  mtu = pos 1420;
}

abbrev peer : PeerSpec
peer = record {
  public_key = zeros 32;
  endpoint = none;
  allowed_ips = address ∷ [];
  persistent_keepalive = pos 25;
}

abbrev looked_at : Fake
looked_at = record {
  interfaces = [];
  fail_on = [];
  fail_next = [];
  fail_next_err = [];
  calls = "ObserveInterface" ∷ [];
  handshake_on_apply = false;
  handshake_at = 0;
  routes = [];
}

abbrev bare : Fake
bare = record looked_at { calls = [] }

abbrev the_plan : Plan
the_plan = plan_for text "tx" tunnel (peer ∷ []) 5 false [] []

-- The journal is on disk, and the peer cannot be set.
abbrev work : Work Fake
work = record {
  transaction = new_transaction "tx" "nm0" 5;
  host = looked_at;
  journal = some (record { files = []; writes = [] });
  inject = some Journal.apply_peer;
}

abbrev broken : ApplyError
broken = rolled (injected Journal.apply_peer) []

abbrev run : Outcome (Work Fake) ApplyError Transaction
run = apply text fake_controller the_plan 6 work

is_planned :
    plan_interface text fake_controller "tx" tunnel (peer ∷ []) 5 bare ≡ ok the_plan looked_at
unfolding plan_interface fake_controller observe_interface record_call
is_planned = refl

is_rolled : run ≡ err broken (final run)
unfolding apply opened plan_all carry_out roll_back save Store.save Store.has_separator
    Store.write_atomic plan apply_interface apply_addresses apply_peers apply_routes apply_step
    begin complete call maybe_inject mark_applying mark_applied mark_failed mark_rolled_back
    update_status update_first written compensate compensate_all compensate_one undo
    compensation_order reversed_onto applied_operations close commit touches_interface
    new_transaction plan_for planned_operation contains_prefix contains_peer fake_controller
    ensure_interface Fake.apply_peer remove_peer remove_interface record_call owns_interface
    new_peer upsert_peer updated_peer
is_rolled = refl

plan_apply_spared_example :
    (fake_confined.without "nm0" (fake_confined.view (final run).host) ≡ fake_confined.view bare)
    × ((fake_confined.view (final run).host ≡ fake_confined.view bare)
        ⊎ ((e : Port.Error) × (broken ≡ rolled (Failure.calling create_interface e) [])))
unfolding fake_confined
plan_apply_spared_example =
    plan_apply_spared text fake_controller fake_confined "tx" tunnel (peer ∷ []) 5 6 bare looked_at
      the_plan work (final run) broken refl is_planned refl is_rolled refl

-- The interface is there already, with nothing on it.
abbrev standing : Fake
standing = record bare { interfaces = ("nm0", empty_interface "nm0" [] true) ∷ [] }

abbrev seen : Fake
seen = record standing { calls = "ObserveInterface" ∷ [] }

abbrev update : Plan
update = plan_for text "tx" tunnel (peer ∷ []) 5 true [] []

is_seen : fake_controller.observe_interface "nm0" standing ≡ ok (empty_interface "nm0" [] true) seen
unfolding fake_controller observe_interface record_call
is_seen = refl

update_is_planned :
    plan_interface text fake_controller "tx" tunnel (peer ∷ []) 5 standing ≡ ok update seen
unfolding plan_interface fake_controller observe_interface record_call
update_is_planned = refl

plan_apply_found_example :
    has "nm0"
      (final (apply text fake_controller update 6 (record work { host = seen }))).host.interfaces
    ≡ true
plan_apply_found_example =
    plan_apply_found text fake_controller "tx" tunnel (Carries "nm0") (fake_keeps "nm0") (peer ∷ [])
      5 6 standing seen seen (empty_interface "nm0" [] true) update (record work { host = seen })
      is_seen update_is_planned refl

-- The transaction with its first operation planned, and the journal that holds it.
abbrev open_work : Work Fake
open_work = record work {
  transaction = record {
    id = "tx";
    session_id = "";
    interface = "nm0";
    operations = planned_operation Journal.apply_peer "key" false 5 ∷ [];
    started_at = 5;
    ended_at = none;
    committed = false;
  };
}

abbrev begun : Work Fake
begun = final (begin text fake_controller (new_operation_id Journal.apply_peer "key") open_work)

is_begun :
    begin text fake_controller (new_operation_id Journal.apply_peer "key") open_work ≡ ok tt begun
unfolding begin save Store.save Store.has_separator Store.write_atomic mark_applying update_status
    update_first planned_operation
is_begun = refl

begin-Recorded_example :
    (j : JournalStore) × Recorded (new_operation_id Journal.apply_peer "key") open_work begun j
begin-Recorded_example =
    begin-Recorded text fake_controller (new_operation_id Journal.apply_peer "key") open_work begun
      (record { files = []; writes = [] }) refl refl is_begun
