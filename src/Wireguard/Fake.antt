-- ===== src/Wireguard/Fake.antt =====
-- The host in memory (internal/wireguard/fake.go): the interfaces and the routes that it carries,
-- and the failures that a caller asked for. The lock serialises the calls, and has no model; the
-- order in which the source sorts names and routes to show them has none either.
use nostmesh.Base.{
  ℕ, ◌-◌, ℤ, pos, negsuc, String, string_eq, Bool, true, false, not, List, [], ◌∷◌, ◌++◌, map,
  filter, none, some, nat_eq, ltb, if◌then◌else◌,
}
use nostmesh.Base.Map.{lookup, insert, delete, has}
use nostmesh.Base.Outcome.{Outcome, ok, err, ◌>>=◌}
use nostmesh.Net.{Prefix, prefix_eq, masked}
use nostmesh.Session.Types.{WireGuardKey}
use nostmesh.Session.Start.{bytes_eq}
use nostmesh.Wireguard.Port.{
  zeros, owns_interface, Error, interface_not_found, not_owned, InterfaceSpec, PeerSpec, PeerState,
  InterfaceState, Call, Controller,
}

pub record Fake : Type 0 where
  pub interfaces : List (String × InterfaceState)
  pub fail_on : List (String × Error)
  pub fail_next : List (String × ℕ)
  pub fail_next_err : List (String × Error)
  pub calls : List String
  pub handshake_on_apply : Bool
  pub handshake_at : ℕ
  pub routes : List (String × List (Prefix × Bool))

unfoldable pub new_fake : Fake
new_fake = record {
  interfaces = [];
  fail_on = [];
  fail_next = [];
  fail_next_err = [];
  calls = [];
  handshake_on_apply = false;
  handshake_at = 0;
  routes = [];
}

abbrev pub empty_interface : String → List Prefix → Bool → InterfaceState
empty_interface name addresses owned = record {
  name = name;
  public_key = zeros 32;
  listen_port = pos 0;
  addresses = addresses;
  mtu = pos 0;
  peers = [];
  owned_by_us = owned;
  routes = [];
}

unfoldable pub preexisting_interface : String → List Prefix → Fake → Fake
preexisting_interface name addresses f = record f {
  interfaces = insert name (empty_interface name addresses (owns_interface name)) f.interfaces;
}

unfoldable pub has_interface : String → Fake → Bool
has_interface name f = has name f.interfaces

unfoldable pub fail_next_calls : String → ℕ → Error → Fake → Fake
fail_next_calls method n e f = record f {
  fail_next = insert method n f.fail_next;
  fail_next_err = insert method e f.fail_next_err;
}

-- `record`: the call is noted, and fails if a failure is left for it.
unfoldable pub record_call : String → Call Fake (Unit {0})
record_call method f =
    let noted = record f { calls = f.calls ++ (method ∷ []) } in
    let permanent : Outcome Fake Error (Unit {0}) = elim (lookup method f.fail_on) [
      | none ↦ ok tt noted
      | some e ↦ err e noted
    ] in
    elim (lookup method f.fail_next) [
      | none ↦ permanent
      | some remaining ↦
          let spent = record noted { fail_next = insert method (remaining - 1) f.fail_next } in
          if nat_eq remaining 0
          then permanent
          else elim (lookup method f.fail_next_err) [ none ↦ ok tt spent | some e ↦ err e spent ]
    ]

unfoldable pub ensure_interface : InterfaceSpec → Call Fake InterfaceState
unfolding record_call
ensure_interface spec = record_call "EnsureInterface" >>= λ _ f.
    let held : InterfaceState = elim (lookup spec.name f.interfaces) [
      | none ↦ empty_interface spec.name [] true
      | some iface ↦ iface
    ] in
    let iface = record held {
      listen_port = spec.listen_port;
      addresses = spec.addresses;
      mtu = spec.mtu;
    } in
    if not (owns_interface spec.name)
    then err not_owned f
    else ok iface (record f { interfaces = insert spec.name iface f.interfaces })

-- A keepalive of zero leaves the one that is set.
abbrev pub is_positive : ℤ → Bool
is_positive (pos n) = ltb 0 n
is_positive (negsuc n) = false

unfoldable pub updated_peer : PeerSpec → PeerState → PeerState
updated_peer spec p = record p {
  endpoint = spec.endpoint;
  allowed_ips = spec.allowed_ips;
  persistent_keepalive =
      if is_positive spec.persistent_keepalive
      then spec.persistent_keepalive
      else p.persistent_keepalive;
}

unfoldable pub new_peer : PeerSpec → Fake → PeerState
new_peer spec f = record {
  public_key = spec.public_key;
  endpoint = spec.endpoint;
  allowed_ips = spec.allowed_ips;
  last_handshake = if f.handshake_on_apply then f.handshake_at else 0;
  receive_bytes = pos 0;
  transmit_bytes = pos 0;
  persistent_keepalive = spec.persistent_keepalive;
}

-- The loop over the peers: the first with the key is updated, and a new one goes to the end.
unfoldable pub upsert_peer : PeerSpec → PeerState → List PeerState → List PeerState
unfolding updated_peer
upsert_peer spec fresh [] = fresh ∷ []
upsert_peer spec fresh (p ∷ ps) =
    if bytes_eq p.public_key spec.public_key
    then updated_peer spec p ∷ ps
    else p ∷ upsert_peer spec fresh ps

unfoldable pub apply_peer : String → PeerSpec → Call Fake (Unit {0})
unfolding record_call new_peer
apply_peer name spec = record_call "ApplyPeer" >>= λ _ f. elim (lookup name f.interfaces) [
  | none ↦ err interface_not_found f
  | some iface ↦
      let peers = upsert_peer spec (new_peer spec f) iface.peers in
      ok tt (record f { interfaces = insert name (record iface { peers = peers }) f.interfaces })
]

unfoldable pub remove_peer : String → WireGuardKey → Call Fake (Unit {0})
unfolding record_call
remove_peer name key = record_call "RemovePeer" >>= λ _ f. elim (lookup name f.interfaces) [
  | none ↦ ok tt f
  | some iface ↦
      let kept = filter (λ p. not (bytes_eq p.public_key key)) iface.peers in
      ok tt (record f { interfaces = insert name (record iface { peers = kept }) f.interfaces })
]

abbrev pub routes_of : String → Fake → List (Prefix × Bool)
routes_of name f = elim (lookup name f.routes) [ none ↦ [] | some held ↦ held ]

unfoldable pub observe_interface : String → Call Fake InterfaceState
unfolding record_call
observe_interface name = record_call "ObserveInterface" >>= λ _ f. elim (lookup name f.interfaces) [
  | none ↦ err interface_not_found f
  | some iface ↦ ok (record iface { routes = map (λ e. e.0) (routes_of name f) }) f
]

unfoldable pub list_owned_interfaces : Call Fake (List String)
unfolding record_call
list_owned_interfaces = record_call "ListOwnedInterfaces" >>= λ _ f.
    ok (filter owns_interface (map (λ e. e.0) f.interfaces)) f

unfoldable pub remove_interface : String → Call Fake (Unit {0})
unfolding record_call
remove_interface name = record_call "RemoveInterface" >>= λ _ f.
    if not (owns_interface name)
    then err not_owned f
    else ok tt (record f { interfaces = delete name f.interfaces; routes = delete name f.routes })

unfoldable pub add_route : String → Prefix → Call Fake (Unit {0})
unfolding record_call
add_route name prefix = record_call "AddRoute" >>= λ _ f.
    if not (owns_interface name)
    then err not_owned f
    else if nat_eq prefix.bits_plus_one 1
    then err not_owned f
    else if not (has name f.interfaces)
    then err interface_not_found f
    else ok tt (record f {
      routes = insert name (insert (masked prefix) true (routes_of name f)) f.routes;
    })

unfoldable pub remove_route : String → Prefix → Call Fake (Unit {0})
unfolding record_call
remove_route name prefix = record_call "RemoveRoute" >>= λ _ f.
    let left : List (String × List (Prefix × Bool)) = elim (lookup name f.routes) [
      | none ↦ f.routes
      | some held ↦ insert name (delete (masked prefix) held) f.routes
    ] in
    if not (owns_interface name) then err not_owned f else ok tt (record f { routes = left })

unfoldable pub has_route : String → Prefix → Call Fake Bool
unfolding record_call
has_route name prefix =
    record_call "HasRoute" >>= λ _ f. ok (has (masked prefix) (routes_of name f)) f

unfoldable pub fake_controller : Controller Fake
fake_controller = record {
  ensure_interface = ensure_interface;
  apply_peer = apply_peer;
  remove_peer = remove_peer;
  observe_interface = observe_interface;
  remove_interface = remove_interface;
  list_owned_interfaces = list_owned_interfaces;
  add_route = add_route;
  remove_route = remove_route;
  has_route = has_route;
}
