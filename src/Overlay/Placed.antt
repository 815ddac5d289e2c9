-- ===== src/Overlay/Placed.antt =====
-- Where one member is placed.
use nostmesh.Base.{
  ℕ, zero, suc, ◌+◌, ◌*◌, ◌/◌, ◌%◌, ◌^◌, ◌-◌, String, ◌==◌, ◌≡◌, refl, false, not, Option, nat_eq,
  if◌then◌else◌, arith, Bool-cases, Option-cases, inl, inr,
}
use nostmesh.Base.Map.{has}
use nostmesh.Base.Outcome.{Result, value, error}
use nostmesh.Net.{Addr, addr_eq, Prefix, v6, family_eq}
use nostmesh.Session.Types.{NostrKey}
use nostmesh.Overlay.Derive.{
  Hashes, NetworkSalt, counter_exhausted, not_an_overlay_prefix, max_derivation_counter, with_host,
  derive_once, derive_from, derive_overlay_address, subnet_of,
}
use nostmesh.Overlay.Derive
use nostmesh.Overlay.Manifest.{Member}
use nostmesh.Overlay.Allocate.{
  Assignment, Error, underived, address_conflict, Taken, parse_assigned_ipv4, try_counter,
  search_from, allocate_one,
}

-- What holds of a result that there is.
abbrev pub Gives : {E A : Type 0} → (A → Type 0) → Result E A → Type 0
Gives P (value a) = P a
Gives P (error e) = Unit

-- A host's address in a subnet, and not the subnet's own.
pub record InSubnet (subnet : Prefix) (a : Addr) : Type 0 where
  pub inside : a.value / 2 ^ 64 ≡ subnet.addr.value / 2 ^ 64
  pub proper : (a == subnet.addr) ≡ false

with_host-inside : (x h : ℕ) → (x / 2 ^ 64 * 2 ^ 64 + h % 2 ^ 64) / 2 ^ 64 ≡ x / 2 ^ 64
with_host-inside x h = omega arith

module _ (hashes : Hashes) (salt : NetworkSalt) (subnet : Prefix) (key : NostrKey) where
  derive_once-InSubnet :
      (counter : ℕ) (again : Result Derive.Error Addr)
      → Gives (InSubnet subnet) again
      → Gives (InSubnet subnet) (derive_once hashes salt subnet key counter again)
  unfolding derive_once with_host
  derive_once-InSubnet counter again g =
      elim (Option-cases (hashes.interface_id salt key counter)) [
        | inl n ↦ rw (n, derive_once) tt
        | inr (host, h) ↦ elim (Bool-cases (with_host subnet.addr host == subnet.addr)) [
          | inl e ↦ rw (h, e, derive_once) g
          | inr e ↦
              rw (h, e, derive_once)
                (record { inside = with_host-inside subnet.addr.value host; proper = e })
        ]
      ]

  derive_from-InSubnet :
      (left counter : ℕ) → Gives (InSubnet subnet) (derive_from hashes salt subnet key left counter)
  unfolding derive_from
  derive_from-InSubnet zero counter = derive_once-InSubnet counter (error counter_exhausted) tt
  derive_from-InSubnet (suc n) counter =
      derive_once-InSubnet counter (derive_from hashes salt subnet key n (counter + 1))
        (derive_from-InSubnet n (counter + 1))

  derive-InSubnet :
      (counter : ℕ)
      → Gives (InSubnet subnet) (derive_overlay_address hashes salt subnet key counter)
  unfolding derive_overlay_address
  derive-InSubnet counter = elim (Bool-cases (not (nat_eq subnet.bits_plus_one 65))) [
    | inl p ↦ rw (p, derive_overlay_address) tt
    | inr p ↦ elim (Bool-cases (not (family_eq subnet.addr.family v6))) [
      | inl q ↦ rw (p, q, derive_overlay_address) tt
      | inr q ↦
          rw (p, q, derive_overlay_address)
            (derive_from-InSubnet (max_derivation_counter - counter) counter)
    ]
  ]

-- An assignment of a member at an address that nobody holds.
pub record Placed (subnet : Prefix) (taken : Taken) (key : NostrKey) (a : Assignment) : Type 0 where
  pub names : a.member ≡ key
  pub free : has a.address taken ≡ false
  pub located : InSubnet subnet a.address

module _ (parse_prefix : String → Option Prefix) (hashes : Hashes) (salt : NetworkSalt)
    (subnet : Prefix) where
  try_counter-Placed :
      (taken : Taken) (key : NostrKey) (ipv4 : Option Prefix) (counter : ℕ)
      (next : Result Error Assignment)
      → Gives (Placed subnet taken key) next
      → Gives
          (Placed subnet taken key)
          (try_counter parse_prefix hashes salt subnet taken key ipv4 counter next)
  unfolding try_counter
  try_counter-Placed taken key ipv4 counter next g =
      go (derive_overlay_address hashes salt subnet key counter)
        (derive-InSubnet hashes salt subnet key counter)
    where
      go :
          (r : Result Derive.Error Addr)
          → Gives (InSubnet subnet) r
          → Gives (Placed subnet taken key) (elim r as (λ _. Result Error Assignment) [
            | error e ↦ error (underived e)
            | value address ↦
                if has address taken
                then next
                else value
                    (record { member = key; address = address; counter = counter; ipv4 = ipv4 })
          ])
      go (error e) i = tt
      go (value address) i = elim (Bool-cases (has address taken)) [
        | inl h ↦ rw h g
        | inr h ↦ rw h (record { names = refl; free = h; located = i })
      ]

  search_from-Placed :
      (taken : Taken) (key : NostrKey) (ipv4 : Option Prefix) (left counter : ℕ)
      → Gives
          (Placed subnet taken key)
          (search_from parse_prefix hashes salt subnet taken key ipv4 left counter)
  unfolding search_from
  search_from-Placed taken key ipv4 zero counter =
      try_counter-Placed taken key ipv4 counter (error address_conflict) tt
  search_from-Placed taken key ipv4 (suc n) counter =
      try_counter-Placed taken key ipv4 counter
        (search_from parse_prefix hashes salt subnet taken key ipv4 n (counter + 1))
        (search_from-Placed taken key ipv4 n (counter + 1))

  pub allocate_one-Placed :
      (m : Member) (taken : Taken)
      → Gives
          (Placed subnet taken m.public_key)
          (allocate_one parse_prefix hashes m salt subnet taken)
  unfolding allocate_one
  allocate_one-Placed m taken = go (parse_assigned_ipv4 parse_prefix hashes m)
    where
      go :
          (r : Result Error (Option Prefix))
          → Gives (Placed subnet taken m.public_key) (elim r as (λ _. Result Error Assignment) [
            | error e ↦ error e
            | value ipv4 ↦
                search_from parse_prefix hashes salt subnet taken m.public_key ipv4
                  max_derivation_counter 0
          ])
      go (error e) = tt
      go (value ipv4) = search_from-Placed taken m.public_key ipv4 max_derivation_counter 0
