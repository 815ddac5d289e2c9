-- ===== src/Tests/Overlay.antt =====
-- A network of two members whose first addresses collide: runs of the theorems on the overlay.
use nostmesh.Base.{
  ℕ, ◌+◌, ◌*◌, ◌^◌, ◌<◌, pos, String, ◌≡◌, ◌≢◌, refl, Bool, true, List, [], ◌∷◌, map, All, Option,
  none, some, nat_eq,
}
use nostmesh.Base.Outcome.{value}
use nostmesh.Net.{Prefix, v6, addr_beq}
use nostmesh.Session.Types.{NostrKey}
use nostmesh.Overlay.Derive.{
  Hashes, derive_once, derive_from, derive_overlay_address, with_host, subnet_of, network_prefix,
}
use nostmesh.Overlay.Manifest.{
  Member, Manifest, SignedManifest, Verifier, validate, check_members, subnet_at, accept,
}
use nostmesh.Overlay.Allocate.{
  Assignment, Allocation, sorted, parse_assigned_ipv4, try_counter, search_from, allocate_one,
  allocate_all, allocate,
}
use nostmesh.Overlay.Placed.{InSubnet}
use nostmesh.Overlay.Table.{AllApart, allocate-AllApart}
use nostmesh.Overlay.Trust.{DistinctKeys, accept-DistinctKeys}

-- The interface id depends on the counter alone, and is 0 at first.
abbrev hashes : Hashes
hashes = record { global_id = λ _. 1; interface_id = λ _ _ counter. some counter }

abbrev member : ℕ → Member
member key = record { public_key = key; alias = ""; ipv4 = "" }

abbrev network : Manifest
network = record {
  network_id = [];
  name = [];
  version = 2;
  subnets = [];
  members = member 9 ∷ member 4 ∷ [];
}

abbrev no_prefix : String → Option Prefix
no_prefix _ = none

abbrev row : ℕ → ℕ → ℕ → Assignment
row key host counter = record {
  member = key;
  address = record { family = v6; value = 253 * 2 ^ 120 + 1 * 2 ^ 80 + host };
  counter = counter;
  ipv4 = none;
}

abbrev table : Allocation
table = record {
  subnet = record {
    addr = record { family = v6; value = 253 * 2 ^ 120 + 1 * 2 ^ 80 };
    bits_plus_one = 65;
  };
  assignments = row 4 1 0 ∷ row 9 2 2 ∷ [];
}

allocated : allocate no_prefix hashes network [] (pos 0) ≡ value table
unfolding allocate allocate_all allocate_one search_from try_counter parse_assigned_ipv4
    derive_overlay_address derive_from derive_once with_host subnet_of network_prefix subnet_at
    validate check_members addr_beq
allocated = refl

allocate-AllApart_example :
    AllApart table.assignments
    × ((map (λ a. a.member) table.assignments ≡ map (λ x. x.public_key) (sorted network.members))
        × All (λ a. InSubnet table.subnet a.address) table.assignments)
allocate-AllApart_example = allocate-AllApart no_prefix hashes network [] (pos 0) table allocated

abbrev seven : NostrKey
seven = 7

abbrev signed : SignedManifest
signed = record { manifest = network; issuer = 7; signature = 1 ∷ [] }

abbrev by_seven : NostrKey → List ℕ → List ℕ → Bool
by_seven key _ _ = nat_eq key 7

abbrev verifier : Verifier
verifier = some by_seven

accepted : accept (λ _. []) verifier seven 1 signed ≡ none
unfolding accept validate check_members
accepted = refl

accept-DistinctKeys_example :
    ((verify : NostrKey → List ℕ → List ℕ → Bool) × ((verifier ≡ some verify)
        × (verify seven [] (1 ∷ []) ≡ true)))
    × (((signed.issuer ≡ seven) × (seven ≢ 0))
        × ((1 < network.version) × ((network.members ≢ []) × DistinctKeys network.members)))
accept-DistinctKeys_example = accept-DistinctKeys (λ _. []) verifier seven 1 signed accepted
