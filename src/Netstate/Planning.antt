-- ===== src/Netstate/Planning.antt =====
-- Plans of changes, and what they record of the host (internal/netstate/manager.go).
use nostmesh.Base.{
  ℕ, String, string_eq, Bool, true, false, ◌&&◌, List, [], ◌∷◌, ◌++◌, map, any, Option, none, ◌==◌,
  if◌then◌else◌, pos,
}
use nostmesh.Base.Outcome.{Outcome, ok, err}
use nostmesh.Net.{Prefix, prefix_eq}
use nostmesh.Session.Types.{WireGuardKey}
use nostmesh.Session.Start.{bytes_eq}
use nostmesh.Wireguard.Port.{
  zeros, Controller, InterfaceSpec, PeerSpec, PeerState, Error, interface_not_found,
}
use nostmesh.Netstate.Journal.{
  OperationKind, create_interface, configure_interface, add_address, set_link_up, apply_peer,
  add_route, is_kind, planned, Operation, OperationId, new_operation_id,
}
use nostmesh.Netstate.Journal
use nostmesh.Netstate.Store

-- How keys, prefixes and errors are written, and keys and prefixes read back.
pub record Texts : Type 0 where
  pub key_text : WireGuardKey → String
  pub parse_key : String → Option WireGuardKey
  pub prefix_text : Prefix → String
  pub parse_prefix : String → Option Prefix
  pub error_text : Error → String

pub data Failure : Type 0 where
  no_transaction_id bad_key bad_prefix : Failure
  observing : Error → Failure
  calling : OperationKind → Error → Failure
  recording : Store.Error → Failure
  marking : Journal.Error → Failure
  injected : OperationKind → Failure

-- The names that operators give to peers stand only in details, and are left out with them.
pub record Plan : Type 0 where
  pub transaction_id : String
  pub interface : InterfaceSpec
  pub peers : List PeerSpec
  pub operations : List Operation
  pub routes : List Prefix

unfoldable pub touches_interface : Plan → Bool
touches_interface p = any (λ op. is_kind op.kind create_interface) p.operations

unfoldable pub planned_operation : OperationKind → String → Bool → ℕ → Operation
planned_operation kind target existed now = record {
  id = new_operation_id kind target;
  kind = kind;
  target = target;
  status = planned;
  existed = existed;
  planned_at = now;
  applied_at = none;
  failure = "";
}

unfoldable pub contains_prefix : List Prefix → Prefix → Bool
contains_prefix ps want = any (λ p. p == want) ps

unfoldable pub contains_peer : List PeerState → WireGuardKey → Bool
contains_peer ps want = any (λ p. bytes_eq p.public_key want) ps

module _ (text : Texts) where
  -- What is there already: nothing, where the interface was not found.
  unfoldable pub plan_for :
      String → InterfaceSpec → List PeerSpec → ℕ → Bool → List Prefix → List PeerState → Plan
  unfolding planned_operation contains_prefix contains_peer
  plan_for id iface peers now existed addresses known = record {
    transaction_id = id;
    interface = iface;
    peers = peers;
    operations =
        planned_operation create_interface iface.name existed now
        ∷ planned_operation configure_interface iface.name existed now
        ∷ (map
              (λ a.
                planned_operation add_address (text.prefix_text a)
                  (existed && contains_prefix addresses a) now)
              iface.addresses
            ++ (planned_operation set_link_up iface.name existed now
                ∷ map
                    (λ p.
                      planned_operation apply_peer (text.key_text p.public_key)
                        (existed && contains_peer known p.public_key) now)
                    peers));
    routes = [];
  }

  module _ {S : Type 0} (c : Controller S) where
    unfoldable pub plan_interface :
        String → InterfaceSpec → List PeerSpec → ℕ → S → Outcome S Failure Plan
    unfolding plan_for
    plan_interface id iface peers now s =
        if id == "" then err no_transaction_id s else elim (c.observe_interface iface.name s) [
          | ok i t ↦ ok (plan_for id iface peers now true i.addresses i.peers) t
          | err interface_not_found t ↦ ok (plan_for id iface peers now false [] []) t
          | err e t ↦ err (observing e) t
        ]

    -- The loop of `PlanRoutes`: the operations, each with whether its route was there.
    unfoldable pub route_operations : String → List Prefix → S → Outcome S Failure (List Operation)
    unfolding planned_operation
    route_operations iface [] s = ok [] s
    route_operations iface (p ∷ ps) s = elim (c.has_route iface p s) [
      | err e t ↦ err (observing e) t
      | ok existed t ↦ elim (route_operations iface ps t) [
        | err e u ↦ err e u
        | ok ops u ↦ ok (planned_operation add_route (text.prefix_text p) existed 0 ∷ ops) u
      ]
    ]

    -- An interface that is only routed has a name and nothing else in the plan.
    abbrev pub named_only : String → InterfaceSpec
    named_only name = record {
      name = name;
      private_key = zeros 32;
      listen_port = pos 0;
      addresses = [];
      mtu = pos 0;
    }

    unfoldable pub plan_routes : String → String → List Prefix → S → Outcome S Failure Plan
    unfolding route_operations
    plan_routes id iface routes s = elim (c.observe_interface iface s) [
      | err e t ↦ err (observing e) t
      | ok i t ↦ elim (route_operations iface routes t) [
        | err e u ↦ err e u
        | ok ops u ↦
            ok
              (record {
                transaction_id = id;
                interface = named_only iface;
                peers = [];
                operations = ops;
                routes = routes;
              })
              u
      ]
    ]
