-- ===== src/Net.antt =====
-- The addresses and prefixes of Go's net/netip, as far as the program uses them. An address is a
-- number of its family's width, without a zone; a prefix keeps its length plus one, and 0 is the
-- prefix that is not valid, as in netip.
pub mod Laws
use nostmesh.Base.{
  ℕ, ◌+◌, ◌-◌, ◌*◌, ◌/◌, ◌%◌, ◌^◌, Bool, true, false, ◌&&◌, ◌||◌, nat_eq, ltb, leb, if◌then◌else◌,
  Eq, ◌≡◌, ◌↔◌, arith, refl,
}

-- The zero Addr belongs to no family.
pub data Family : Type 0 where
  unset v4 v6 : Family

abbrev pub family_eq : Family → Family → Bool
family_eq unset unset = true
family_eq v4 v4 = true
family_eq v6 v6 = true
family_eq _ _ = false

abbrev pub width : Family → ℕ
width unset = 0
width v4 = 32
width v6 = 128

pub record Addr : Type 0 where
  pub family : Family
  pub value : ℕ

pub record Prefix : Type 0 where
  pub addr : Addr
  pub bits_plus_one : ℕ

pub record AddrPort : Type 0 where
  pub addr : Addr
  pub port : ℕ

unfoldable pub addr_beq : Addr → Addr → Bool
addr_beq a b = family_eq a.family b.family && nat_eq a.value b.value

unfoldable pub prefix_beq : Prefix → Prefix → Bool
unfolding addr_beq
prefix_beq p q = addr_beq p.addr q.addr && nat_eq p.bits_plus_one q.bits_plus_one

unfoldable pub addr_port_beq : AddrPort → AddrPort → Bool
unfolding addr_beq
addr_port_beq a b = addr_beq a.addr b.addr && nat_eq a.port b.port

pub addr_beq_iff : (a b : Addr) → (addr_beq a b ≡ true) ↔ (a ≡ b)
unfolding addr_beq
addr_beq_iff a b = ground arith

pub prefix_beq_iff : (a b : Prefix) → (prefix_beq a b ≡ true) ↔ (a ≡ b)
unfolding prefix_beq
prefix_beq_iff a b = ground arith

pub addr_port_beq_iff : (a b : AddrPort) → (addr_port_beq a b ≡ true) ↔ (a ≡ b)
unfolding addr_port_beq
addr_port_beq_iff a b = ground arith

instance abbrev pub addr_eq : Eq Addr
addr_eq = record { beq = addr_beq; beq_iff = addr_beq_iff }

instance abbrev pub prefix_eq : Eq Prefix
prefix_eq = record { beq = prefix_beq; beq_iff = prefix_beq_iff }

instance abbrev pub addr_port_eq : Eq AddrPort
addr_port_eq = record { beq = addr_port_beq; beq_iff = addr_port_beq_iff }

abbrev pub addr_is_valid : Addr → Bool
addr_is_valid a = elim a.family [ unset ↦ false | _ ↦ true ]

abbrev pub is_valid : Prefix → Bool
is_valid p = ltb 0 p.bits_plus_one

-- How many numbers share the leading bits of a prefix: 2 to the host bits.
abbrev pub span : Prefix → ℕ
span p = 2 ^ (width p.addr.family + 1 - p.bits_plus_one)

abbrev pub masked : Prefix → Prefix
masked p = record p { addr = record (p.addr) { value = p.addr.value / span p * span p } }

unfoldable pub contains : Prefix → Addr → Bool
contains p a =
    is_valid p
    && addr_is_valid a
    && family_eq p.addr.family a.family
    && nat_eq (p.addr.value / span p) (a.value / span p)

unfoldable pub overlaps : Prefix → Prefix → Bool
overlaps p q =
    is_valid p
    && is_valid q
    && family_eq p.addr.family q.addr.family
    && (if leb p.bits_plus_one q.bits_plus_one
        then nat_eq (p.addr.value / span p) (q.addr.value / span p)
        else nat_eq (p.addr.value / span q) (q.addr.value / span q))

-- An IPv4 address in its IPv6 form becomes the IPv4 address.
abbrev pub unmap : Addr → Addr
unmap a = elim a.family [
  | v6 ↦
      if nat_eq (a.value / 2 ^ 32) 0xffff
      then record { family = v4; value = a.value % 2 ^ 32 }
      else a
  | _ ↦ a
]

abbrev pub is_unspecified : Addr → Bool
is_unspecified a = addr_is_valid a && nat_eq a.value 0

abbrev pub is_loopback : Addr → Bool
is_loopback a = elim a.family [
  | unset ↦ false
  | v4 ↦ nat_eq (a.value / 2 ^ 24) 127
  | v6 ↦ nat_eq a.value 1
]

abbrev pub is_multicast : Addr → Bool
is_multicast a = elim a.family [
  | unset ↦ false
  | v4 ↦ nat_eq (a.value / 2 ^ 28) 14
  | v6 ↦ nat_eq (a.value / 2 ^ 120) 0xff
]

abbrev pub is_interface_local_multicast : Addr → Bool
is_interface_local_multicast a = elim a.family [
  | v6 ↦ nat_eq (a.value / 2 ^ 120) 0xff && nat_eq (a.value / 2 ^ 112 % 16) 1
  | _ ↦ false
]

abbrev pub is_link_local_multicast : Addr → Bool
is_link_local_multicast a = elim a.family [
  | unset ↦ false
  | v4 ↦ nat_eq (a.value / 2 ^ 8) 0xe00000
  | v6 ↦ nat_eq (a.value / 2 ^ 120) 0xff && nat_eq (a.value / 2 ^ 112 % 16) 2
]

abbrev pub is_link_local_unicast : Addr → Bool
is_link_local_unicast a = elim a.family [
  | unset ↦ false
  | v4 ↦ nat_eq (a.value / 2 ^ 16) 0xa9fe
  | v6 ↦ nat_eq (a.value / 2 ^ 118) 0x3fa
]
