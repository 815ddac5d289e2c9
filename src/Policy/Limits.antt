-- ===== src/Policy/Limits.antt =====
-- What an admitted and allowed prefix can capture, in terms of addresses.
use nostmesh.Base.{
  ℕ, ◌≡◌, inl, inr, refl, subst, Bool, true, false, not, ◌&&◌, List, [], ◌∷◌, none, arith, In, here,
  there, Bool-cases, Option-cases, any, ltb,
}
use nostmesh.Net.{Addr, Prefix, prefix_eq, contains, masked, overlaps, unmap, is_valid}
use nostmesh.Net.Laws.{Fits, contains-masked, overlaps-contains}
use nostmesh.Policy.Allowlist.{route, Allowlist}
use nostmesh.Policy.Decision.{allowed, decide, decide_route, contains_prefix, is_default_route}
use nostmesh.Policy.Admission.{LocalNetwork, admit_route, admit_address}

contains_prefix-contains :
    (ps : List Prefix) (p : Prefix)
    → Fits p
    → contains_prefix ps p ≡ true
    → (q : Prefix) × In q ps × ((a : Addr) → contains p a ≡ true → contains q a ≡ true)
unfolding contains_prefix
contains_prefix-contains [] p f h = absurd (ground arith)
contains_prefix-contains (q ∷ ps) p f h =
    elim (Bool-cases (not (ltb p.bits_plus_one q.bits_plus_one) && contains q (masked p).addr)) [
      | inl e ↦ (q, here refl, λ a k. contains-masked q p a f (ground arith) (ground arith) k)
      | inr e ↦ let (x, at, c) = contains_prefix-contains ps p f (ground arith) in (x, there at, c)
    ]

-- An announced prefix of its family's width that is allowed is no default route, a rule lets the
-- peer announce routes, and one prefix of that rule holds every address of the announced one.
pub decide_route-allowed :
    (peer : ℕ) (p : Prefix) (a : Allowlist)
    → Fits p
    → allowed (decide_route peer p a) ≡ true
    → (is_default_route p ≡ false)
      × (allowed (decide peer route a) ≡ true)
      × ((q : Prefix) × In q (decide peer route a).allowed_ips
          × ((x : Addr) → contains p x ≡ true → contains q x ≡ true))
unfolding decide_route
decide_route-allowed peer p a f h = (
  ground arith,
  ground arith,
  contains_prefix-contains (decide peer route a).allowed_ips p f (ground arith),
)

any-false :
    {A : Type 0} (test : A → Bool) (xs : List A) (x : A)
    → any test xs ≡ false
    → In x xs
    → test x ≡ false
any-false test [] x h m = elim m [ ]
any-false test (y ∷ ys) x h (here e) =
    let first : test y ≡ false = ground arith in subst (λ z. test z ≡ false) e first
any-false test (y ∷ ys) x h (there m) = any-false test ys x (ground arith) m

-- What `AdmitRoute` admits is canonical and no default route, holds no address that the tunnels or
-- the relays and observers use, and shares no address with a destination of this host.
pub record Harmless (p : Prefix) (here : LocalNetwork) : Type 0 where
  pub canonical : p ≡ masked p
  pub valid : is_valid p ≡ true
  pub partial : is_default_route p ≡ false
  pub transports : (a : Addr) → In a here.transports → contains p (unmap a) ≡ false
  pub infrastructure : (a : Addr) → In a here.infrastructure → contains p (unmap a) ≡ false
  pub disjoint :
      (q : Prefix) (a : Addr)
      → In q here.prefixes
      → Fits q
      → contains q a ≡ true
      → contains p a ≡ false

-- A prefix of its family's width that `AdmitRoute` admits is canonical, valid and no default route,
-- holds no address that the tunnels or the relays and observers use, and shares no address with a
-- destination of this host.
pub admit_route-Harmless :
    (p : Prefix) (net : LocalNetwork) → Fits p → admit_route p net ≡ none → Harmless p net
unfolding admit_route is_default_route
admit_route-Harmless p net f h = elim (Option-cases (admit_address p.addr)) [
  | inr (x, e) ↦ absurd (ground arith)
  | inl e ↦ record {
    canonical = (prefix_eq.beq_iff p (masked p)).0 (ground arith);
    valid = ground arith;
    partial = ground arith;
    transports = λ a m. any-false (λ x. contains p (unmap x)) net.transports a (ground arith) m;
    infrastructure =
        λ a m. any-false (λ x. contains p (unmap x)) net.infrastructure a (ground arith) m;
    disjoint = λ q a m fq k.
        let apart = any-false (λ x. overlaps p x) net.prefixes q (ground arith) m in
        elim (Bool-cases (contains p a)) [
          | inr no_a ↦ no_a
          | inl yes_a ↦ absurd (ground (arith, overlaps-contains p q a f fq yes_a k))
        ];
  }
]
