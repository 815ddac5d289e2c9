-- ===== src/Overlay/Derive.antt =====
-- The derivation of overlay addresses (internal/domain/overlay.go). The hashes are parameters.
use nostmesh.Base.{
  ℕ, zero, suc, ◌+◌, ◌-◌, ◌*◌, ◌/◌, ◌%◌, ◌^◌, not, List, Option, none, some, nat_eq, if◌then◌else◌,
  ◌==◌,
}
use nostmesh.Base.Outcome.{Result, value, error}
use nostmesh.Net.{Addr, addr_eq, Prefix, v6, family_eq}
use nostmesh.Session.Types.{NostrKey}

abbrev pub NetworkId : Type 0
NetworkId = List ℕ

abbrev pub NetworkSalt : Type 0
NetworkSalt = List ℕ

-- The first five bytes of the SHA-256 of a labelled network id, and the eight bytes that HKDF gives
-- for a salt, a key and a counter, as numbers; none where HKDF fails.
pub record Hashes : Type 0 where
  pub global_id : NetworkId → ℕ
  pub interface_id : NetworkSalt → NostrKey → ℕ → Option ℕ

pub data Error : Type 0 where
  not_an_overlay_prefix counter_exhausted hash_failed : Error

abbrev pub max_derivation_counter : ℕ
max_derivation_counter = 1024

-- Sixteen bytes: the marker 0xfd, the global id, and ten bytes of 0.
unfoldable pub network_prefix : Hashes → NetworkId → Prefix
network_prefix hashes n = record {
  addr = record { family = v6; value = 253 * 2 ^ 120 + hashes.global_id n % 2 ^ 40 * 2 ^ 80 };
  bits_plus_one = 49;
}

-- The bytes of the subnet's id are 0 in the network's prefix.
unfoldable pub subnet_of : Hashes → NetworkId → ℕ → Prefix
unfolding network_prefix
subnet_of hashes n id =
    let network = (network_prefix hashes n).addr in
    record {
      addr = record network { value = network.value + id % 2 ^ 16 * 2 ^ 64 };
      bits_plus_one = 65;
    }

-- The subnet's address with the last eight bytes replaced.
unfoldable pub with_host : Addr → ℕ → Addr
with_host subnet host = record {
  family = v6;
  value = subnet.value / 2 ^ 64 * 2 ^ 64 + host % 2 ^ 64;
}

-- One derivation, and what follows where it gives the subnet's own address.
unfoldable pub derive_once :
    Hashes → NetworkSalt → Prefix → NostrKey → ℕ → Result Error Addr → Result Error Addr
unfolding with_host
derive_once hashes salt subnet key counter again = elim (hashes.interface_id salt key counter) [
  | none ↦ error hash_failed
  | some host ↦
      if with_host subnet.addr host == subnet.addr
      then again
      else value (with_host subnet.addr host)
]

-- The derivation from a counter, which may still be advanced so many times.
unfoldable pub derive_from : Hashes → NetworkSalt → Prefix → NostrKey → ℕ → ℕ → Result Error Addr
unfolding derive_once
derive_from hashes salt subnet key zero counter =
    derive_once hashes salt subnet key counter (error counter_exhausted)
derive_from hashes salt subnet key (suc n) counter =
    derive_once hashes salt subnet key counter (derive_from hashes salt subnet key n (counter + 1))

unfoldable pub derive_overlay_address :
    Hashes → NetworkSalt → Prefix → NostrKey → ℕ → Result Error Addr
unfolding derive_from
derive_overlay_address hashes salt subnet key counter =
    if not (nat_eq subnet.bits_plus_one 65)
    then error not_an_overlay_prefix
    else if not (family_eq subnet.addr.family v6)
    then error not_an_overlay_prefix
    else derive_from hashes salt subnet key (max_derivation_counter - counter) counter
