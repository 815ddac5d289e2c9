-- ===== src/Overlay/Allocate.antt =====
-- The allocation of addresses to the members of a network (internal/domain/allocation.go). How a
-- prefix is read from a text is a parameter. Keys sort as numbers the way their hexadecimal texts
-- sort.
use nostmesh.Base.{
  ℕ, zero, suc, ◌+◌, ℤ, String, string_eq, ◌==◌, List, [], ◌∷◌, Option, none, some, leb,
  if◌then◌else◌,
}
use nostmesh.Base.Map.{insert, has}
use nostmesh.Base.Outcome.{Result, value, error}
use nostmesh.Net.{Addr, addr_eq, Prefix, v4, family_eq}
use nostmesh.Session.Types.{NostrKey}
use nostmesh.Overlay.Derive.{
  Hashes, NetworkSalt, max_derivation_counter, subnet_of, derive_overlay_address,
}
use nostmesh.Overlay.Derive
use nostmesh.Overlay.Manifest.{Member, Manifest, validate, subnet_at}
use nostmesh.Overlay.Manifest

pub record Assignment : Type 0 where
  pub member : NostrKey
  pub address : Addr
  pub counter : ℕ
  pub ipv4 : Option Prefix

pub record Allocation : Type 0 where
  pub subnet : Prefix
  pub assignments : List Assignment

pub data Error : Type 0 where
  invalid : Manifest.Error → Error
  underived : Derive.Error → Error
  bad_ipv4 address_conflict not_a_member : Error

abbrev pub insert_sorted : Member → List Member → List Member
insert_sorted m [] = m ∷ []
insert_sorted m (x ∷ xs) =
    if leb m.public_key x.public_key then m ∷ x ∷ xs else x ∷ insert_sorted m xs

-- slices.SortFunc by the key.
abbrev pub sorted : List Member → List Member
sorted [] = []
sorted (m ∷ ms) = insert_sorted m (sorted ms)

abbrev pub Taken : Type 0
Taken = List (Addr × NostrKey)

module _ (parse_prefix : String → Option Prefix) (hashes : Hashes) where
  unfoldable pub parse_assigned_ipv4 : Member → Result Error (Option Prefix)
  parse_assigned_ipv4 m = if m.ipv4 == "" then value none else elim (parse_prefix m.ipv4) [
    | none ↦ error bad_ipv4
    | some p ↦ if family_eq p.addr.family v4 then value (some p) else error bad_ipv4
  ]

  -- One turn of the loop of `allocateOne`, and what follows where the address is taken.
  unfoldable pub try_counter :
      NetworkSalt
      → Prefix
      → Taken
      → NostrKey
      → Option Prefix
      → ℕ
      → Result Error Assignment
      → Result Error Assignment
  try_counter salt subnet taken key ipv4 counter next =
      elim (derive_overlay_address hashes salt subnet key counter) [
        | error e ↦ error (underived e)
        | value address ↦
            if has address taken
            then next
            else value (record { member = key; address = address; counter = counter; ipv4 = ipv4 })
      ]

  -- The loop from a counter, with so many turns after this one.
  unfoldable pub search_from :
      NetworkSalt → Prefix → Taken → NostrKey → Option Prefix → ℕ → ℕ → Result Error Assignment
  unfolding try_counter
  search_from salt subnet taken key ipv4 zero counter =
      try_counter salt subnet taken key ipv4 counter (error address_conflict)
  search_from salt subnet taken key ipv4 (suc n) counter =
      try_counter salt subnet taken key ipv4 counter
        (search_from salt subnet taken key ipv4 n (counter + 1))

  unfoldable pub allocate_one : Member → NetworkSalt → Prefix → Taken → Result Error Assignment
  unfolding parse_assigned_ipv4 search_from
  allocate_one m salt subnet taken = elim (parse_assigned_ipv4 m) [
    | error e ↦ error e
    | value ipv4 ↦ search_from salt subnet taken m.public_key ipv4 max_derivation_counter 0
  ]

  -- The loop of `Allocate`: the assignments to come.
  unfoldable pub allocate_all :
      NetworkSalt → Prefix → List Member → Taken → Result Error (List Assignment)
  unfolding allocate_one
  allocate_all salt subnet [] taken = value []
  allocate_all salt subnet (m ∷ ms) taken = elim (allocate_one m salt subnet taken) [
    | error e ↦ error e
    | value a ↦ elim (allocate_all salt subnet ms (insert a.address m.public_key taken)) [
      | error e ↦ error e
      | value later ↦ value (a ∷ later)
    ]
  ]

  unfoldable pub allocate : Manifest → NetworkSalt → ℤ → Result Error Allocation
  unfolding allocate_all validate subnet_at subnet_of
  allocate m salt index = elim (validate m) [
    | some e ↦ error (invalid e)
    | none ↦
        let subnet = subnet_of hashes m.network_id (subnet_at m index) in
        elim (allocate_all salt subnet (sorted m.members) []) [
          | error e ↦ error e
          | value assignments ↦ value (record { subnet = subnet; assignments = assignments })
        ]
  ]
