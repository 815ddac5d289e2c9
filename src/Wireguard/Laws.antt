-- ===== src/Wireguard/Laws.antt =====
-- What a client of the port may rely on (internal/wireguard/port.go).
use nostmesh.Base.{String, string_eq, ◌≡◌, ◌≢◌}
use nostmesh.Base.Outcome.{ok, final}
use nostmesh.Net.{Prefix}
use nostmesh.Session.Types.{WireGuardKey}
use nostmesh.Wireguard.Port.{InterfaceSpec, PeerSpec, InterfaceState, Controller}

-- What a host carries, and what is left of it without one interface. A call for an interface
-- touches nothing of the others, also when it fails; a call that only looks changes nothing; and an
-- interface that is removed is gone with all it carried.
pub record Confined {S : Type 0} (c : Controller S) : Type 1 where
  pub View : Type 0
  pub view : S → View
  pub without : String → View → View
  pub ensure_confined :
      (spec : InterfaceSpec) (s : S)
      → without spec.name (view (final (c.ensure_interface spec s))) ≡ without spec.name (view s)
  pub apply_peer_confined :
      (n : String) (spec : PeerSpec) (s : S)
      → without n (view (final (c.apply_peer n spec s))) ≡ without n (view s)
  pub remove_peer_confined :
      (n : String) (key : WireGuardKey) (s : S)
      → without n (view (final (c.remove_peer n key s))) ≡ without n (view s)
  pub add_route_confined :
      (n : String) (p : Prefix) (s : S)
      → without n (view (final (c.add_route n p s))) ≡ without n (view s)
  pub remove_route_confined :
      (n : String) (p : Prefix) (s : S)
      → without n (view (final (c.remove_route n p s))) ≡ without n (view s)
  pub remove_interface_confined :
      (n : String) (s : S) → without n (view (final (c.remove_interface n s))) ≡ without n (view s)
  pub remove_interface_gone :
      (n : String) (s t : S) → c.remove_interface n s ≡ ok tt t → view t ≡ without n (view s)
  pub observe_looks : (n : String) (s : S) → view (final (c.observe_interface n s)) ≡ view s
  pub observe_absent :
      (n : String) (s t : S) (i : InterfaceState)
      → without n (view s) ≡ view s
      → c.observe_interface n s ≢ ok i t
  pub has_route_looks :
      (n : String) (p : Prefix) (s : S) → view (final (c.has_route n p s)) ≡ view s

-- What says that the host carries an interface is kept by every call for it but its removal.
pub record KeepsInterface {S : Type 0} (c : Controller S) (n : String) (there : S → Type 0)
    : Type 0 where
  pub ensure_keeps :
      (spec : InterfaceSpec) (s : S)
      → spec.name ≡ n
      → there s
      → there (final (c.ensure_interface spec s))
  pub apply_peer_keeps : (spec : PeerSpec) (s : S) → there s → there (final (c.apply_peer n spec s))
  pub remove_peer_keeps :
      (key : WireGuardKey) (s : S) → there s → there (final (c.remove_peer n key s))
  pub add_route_keeps : (p : Prefix) (s : S) → there s → there (final (c.add_route n p s))
  pub remove_route_keeps : (p : Prefix) (s : S) → there s → there (final (c.remove_route n p s))
