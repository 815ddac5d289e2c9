-- ===== src/Overlay/Table.antt =====
-- The table of addresses that an allocation gives.
use nostmesh.Base.{
  ℤ, String, ◌==◌, ◌≡◌, refl, subst, false, List, [], ◌∷◌, map, All, Option, none, some, arith,
  Bool-cases, inl, inr,
}
use nostmesh.Base.Map.{insert, has, lookup-insert}
use nostmesh.Base.Outcome.{Result, value, error}
use nostmesh.Net.{Addr, addr_eq, Prefix}
use nostmesh.Session.Types.{NostrKey}
use nostmesh.Overlay.Derive.{Hashes, NetworkSalt, subnet_of}
use nostmesh.Overlay.Manifest.{Member, Manifest, validate, subnet_at}
use nostmesh.Overlay.Manifest
use nostmesh.Overlay.Allocate.{
  Assignment, Allocation, Error, sorted, Taken, allocate_one, allocate_all, allocate,
}
use nostmesh.Overlay.Placed.{Gives, InSubnet, Placed, allocate_one-Placed}

-- No two assignments have one address.
pub AllApart : List Assignment → Type 0
AllApart [] = Unit
AllApart (a ∷ rows) = All (λ b. (a.address == b.address) ≡ false) rows × AllApart rows

Free : Taken → List Assignment → Type 0
Free taken = All (λ b. has b.address taken ≡ false)

has-insert :
    (a : Addr) (k : NostrKey) (taken : Taken) (b : Addr)
    → has b (insert a k taken) ≡ false
    → ((a == b) ≡ false) × (has b taken ≡ false)
has-insert a k taken b h = elim (Bool-cases (a == b)) [
  | inl e ↦ absurd (ground (arith, lookup-insert a b k taken))
  | inr e ↦ (e, ground (arith, lookup-insert a b k taken))
]

Free-insert :
    (a : Addr) (k : NostrKey) (taken : Taken) (rows : List Assignment)
    → Free (insert a k taken) rows
    → All (λ b. (a == b.address) ≡ false) rows × Free taken rows
unfolding Free
Free-insert a k taken [] f = (tt, tt)
Free-insert a k taken (b ∷ rows) f =
    let here = has-insert a k taken b.address f.0 in
    let later = Free-insert a k taken rows f.1 in ((here.0, later.0), (here.1, later.1))

-- The rows of a table: one for each member in turn, apart from each other and from what is taken.
record Rows (subnet : Prefix) (taken : Taken) (ms : List Member) (rows : List Assignment)
    : Type 0 where
  names : map (λ a. a.member) rows ≡ map (λ m. m.public_key) ms
  free : Free taken rows
  apart : AllApart rows
  located : All (λ a. InSubnet subnet a.address) rows

module _ (parse_prefix : String → Option Prefix) (hashes : Hashes) (salt : NetworkSalt)
    (subnet : Prefix) where
  allocate_all-Rows :
      (ms : List Member) (taken : Taken)
      → Gives (Rows subnet taken ms) (allocate_all parse_prefix hashes salt subnet ms taken)
  unfolding allocate_all Free AllApart
  allocate_all-Rows [] taken = record { names = refl; free = tt; apart = tt; located = tt }
  allocate_all-Rows (m ∷ ms) taken =
      go (λ t. allocate_all-Rows ms t) (allocate_one parse_prefix hashes m salt subnet taken)
        (allocate_one-Placed parse_prefix hashes salt subnet m taken)
    where
      rest :
          (a : Assignment)
          → Placed subnet taken m.public_key a
          → (r : Result Error (List Assignment))
          → Gives (Rows subnet (insert a.address m.public_key taken) ms) r
          → Gives (Rows subnet taken (m ∷ ms)) (elim r as (λ _. Result Error (List Assignment)) [
            | error e ↦ error e
            | value later ↦ value (a ∷ later)
          ])
      rest a p (error e) g = tt
      rest a p (value later) g =
          let split = Free-insert a.address m.public_key taken later g.free in
          record {
            names = rw (p.names, g.names);
            free = (p.free, split.1);
            apart = (split.0, g.apart);
            located = (p.located, g.located);
          }

      go :
          ((t : Taken)
            → Gives (Rows subnet t ms) (allocate_all parse_prefix hashes salt subnet ms t))
          → (r : Result Error Assignment) → Gives (Placed subnet taken m.public_key) r
          → Gives (Rows subnet taken (m ∷ ms)) (elim r as (λ _. Result Error (List Assignment)) [
            | error e ↦ error e
            | value a ↦
                elim (allocate_all parse_prefix hashes salt subnet ms
                    (insert a.address m.public_key taken))
                  as (λ _. Result Error (List Assignment)) [
                    | error e ↦ error e
                    | value later ↦ value (a ∷ later)
                  ]
          ])
      go later (error e) p = tt
      go later (value a) p =
          rest a p
            (allocate_all parse_prefix hashes salt subnet ms (insert a.address m.public_key taken))
            (later (insert a.address m.public_key taken))

-- An allocation that succeeds gives every member, in the order of their keys, one address of the
-- subnet; no address is given twice, and none is the subnet's own.
pub allocate-AllApart :
    (parse_prefix : String → Option Prefix) (hashes : Hashes) (m : Manifest) (salt : NetworkSalt)
    (index : ℤ) (al : Allocation)
    → allocate parse_prefix hashes m salt index ≡ value al
    → AllApart al.assignments
      × ((map (λ a. a.member) al.assignments ≡ map (λ x. x.public_key) (sorted m.members))
          × All (λ a. InSubnet al.subnet a.address) al.assignments)
unfolding allocate
allocate-AllApart parse_prefix hashes m salt index al h =
    subst (Gives IsTable) h (valid (validate m))
  where
    subnet : Prefix
    subnet = subnet_of hashes m.network_id (subnet_at m index)

    IsTable : Allocation → Type 0
    IsTable t =
        AllApart t.assignments
        × ((map (λ a. a.member) t.assignments ≡ map (λ x. x.public_key) (sorted m.members))
            × All (λ a. InSubnet t.subnet a.address) t.assignments)

    table : Result Error (List Assignment) → Result Error Allocation
    table r = elim r [
      | error e ↦ error e
      | value rows ↦ value (record { subnet = subnet; assignments = rows })
    ]

    tabled :
        (r : Result Error (List Assignment))
        → Gives (Rows subnet [] (sorted m.members)) r
        → Gives IsTable (table r)
    tabled (error e) g = tt
    tabled (value rows) g = (g.apart, (g.names, g.located))

    valid :
        (o : Option Manifest.Error)
        → Gives IsTable (elim o as (λ _. Result Error Allocation) [
          | some e ↦ error (Error.invalid e)
          | none ↦ table (allocate_all parse_prefix hashes salt subnet (sorted m.members) [])
        ])
    valid (some e) = tt
    valid none =
        tabled (allocate_all parse_prefix hashes salt subnet (sorted m.members) [])
          (allocate_all-Rows parse_prefix hashes salt subnet (sorted m.members) [])
