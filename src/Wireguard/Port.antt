-- ===== src/Wireguard/Port.antt =====
-- The port to WireGuard (internal/wireguard/port.go). A call that fails may have changed the host.
use Prim.Native.Char.{code}
use nostmesh.Base.{ℕ, zero, suc, [], ◌∷◌, ℤ, String, Bool, false, ◌&&◌, List, Option, nat_eq}
use nostmesh.Base.Outcome.{Outcome}
use nostmesh.Net.{Prefix, AddrPort}
use nostmesh.Session.Types.{WireGuardKey}

-- Whether a name has the prefix "nm", by its first two characters.
unfoldable pub owns_interface : String → Bool
owns_interface String.[] = false
owns_interface (String.◌∷◌ a String.[]) = false
owns_interface (String.◌∷◌ a (String.◌∷◌ b rest)) = nat_eq (code a) b'n' && nat_eq (code b) b'm'

-- The unset key, which is 32 bytes of 0.
abbrev pub zeros : ℕ → List ℕ
zeros zero = []
zeros (suc n) = 0 ∷ zeros n

-- The errors that the program tells apart, and any other by its text.
pub data Error : Type 0 where
  interface_not_found peer_not_found not_owned : Error
  other : String → Error

pub record InterfaceSpec : Type 0 where
  pub name : String
  pub private_key : WireGuardKey
  pub listen_port : ℤ
  pub addresses : List Prefix
  pub mtu : ℤ

pub record PeerSpec : Type 0 where
  pub public_key : WireGuardKey
  pub endpoint : Option AddrPort
  pub allowed_ips : List Prefix
  pub persistent_keepalive : ℤ

pub record PeerState : Type 0 where
  pub public_key : WireGuardKey
  pub endpoint : Option AddrPort
  pub allowed_ips : List Prefix
  pub last_handshake : ℕ
  pub receive_bytes : ℤ
  pub transmit_bytes : ℤ
  pub persistent_keepalive : ℤ

pub record InterfaceState : Type 0 where
  pub name : String
  pub public_key : WireGuardKey
  pub listen_port : ℤ
  pub addresses : List Prefix
  pub mtu : ℤ
  pub peers : List PeerState
  pub owned_by_us : Bool
  pub routes : List Prefix

abbrev pub Call : Type 0 → Type 0 → Type 0
Call S A = S → Outcome S Error A

-- The operations of a controller, over the state of a host.
pub record Controller (S : Type 0) : Type 0 where
  pub ensure_interface : InterfaceSpec → Call S InterfaceState
  pub apply_peer : String → PeerSpec → Call S (Unit {0})
  pub remove_peer : String → WireGuardKey → Call S (Unit {0})
  pub observe_interface : String → Call S InterfaceState
  pub remove_interface : String → Call S (Unit {0})
  pub list_owned_interfaces : Call S (List String)
  pub add_route : String → Prefix → Call S (Unit {0})
  pub remove_route : String → Prefix → Call S (Unit {0})
  pub has_route : String → Prefix → Call S Bool
