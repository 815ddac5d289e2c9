-- ===== src/Policy/Admission.antt =====
-- Which announced prefixes a node considers at all (internal/domain/routeadmission.go).
use nostmesh.Base.{Bool, not, ◌||◌, List, Option, none, some, nat_eq, if◌then◌else◌, any, ◌==◌}
use nostmesh.Net.{
  Addr, Prefix, prefix_eq, is_valid, masked, contains, overlaps, unmap, is_unspecified, is_loopback,
  is_multicast, is_interface_local_multicast, is_link_local_multicast, is_link_local_unicast,
}

pub record LocalNetwork : Type 0 where
  pub transports : List Addr
  pub infrastructure : List Addr
  pub prefixes : List Prefix

-- The refusals of `AdmitRoute`, which all wrap ErrRouteRefused.
pub data Refusal : Type 0 where
  not_valid not_canonical default_route unspecified loopback multicast link_local : Refusal
  covers_transport covers_infrastructure overlaps_local : Refusal

unfoldable pub admit_address : Addr → Option Refusal
admit_address addr =
    let ip = unmap addr in
    if is_unspecified ip
    then some unspecified
    else if is_loopback ip
    then some loopback
    else if is_multicast ip || is_interface_local_multicast ip || is_link_local_multicast ip
    then some multicast
    else if is_link_local_unicast ip
    then some link_local
    else none

abbrev pub covers_any : Prefix → List Addr → Bool
covers_any p = any (λ a. contains p (unmap a))

abbrev pub overlaps_any : Prefix → List Prefix → Bool
overlaps_any p = any (λ mine. overlaps p mine)

unfoldable pub admit_route : Prefix → LocalNetwork → Option Refusal
admit_route p here =
    if not (is_valid p)
    then some not_valid
    else if not (p == masked p)
    then some not_canonical
    else if nat_eq p.bits_plus_one 1
    then some default_route
    else elim (admit_address p.addr) [
      | some refusal ↦ some refusal
      | none ↦
          if covers_any p here.transports
          then some covers_transport
          else if covers_any p here.infrastructure
          then some covers_infrastructure
          else if overlaps_any p here.prefixes
          then some overlaps_local
          else none
    ]
