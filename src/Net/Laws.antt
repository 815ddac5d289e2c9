-- ===== src/Net/Laws.antt =====
-- Containment of prefixes: what the test on two prefixes says about their addresses.
use native.Mathlib.Nat.{div-div-eq-div-mul, mul-div_cancel, pow-suc}
use nostmesh.Base.{
  ℕ, zero, suc, ◌+◌, ◌-◌, ◌*◌, ◌/◌, ◌^◌, ◌≤◌, ◌<◌, ◌≡◌, sym, ◌∙◌, ap, true, leb, arith, leb→le,
  Bool-cases, inl, inr,
}
use nostmesh.Net.{Addr, Prefix, Family, width, family_eq, contains, overlaps, span, masked}

pub pow-pos : (n : ℕ) → 0 < 2 ^ n
pow-pos zero = omega arith
pow-pos (suc n) = omega (arith, pow-suc 2 n, pow-pos n)

pub pow-add : (n m : ℕ) → 2 ^ (n + m) ≡ 2 ^ n * 2 ^ m
pow-add zero m = grind arith
pow-add (suc n) m =
    let e : suc n + m ≡ suc (n + m) = omega arith in
    rw (e, pow-suc 2 (n + m), pow-suc 2 n, pow-add n m) (omega arith)

-- A prefix is no longer than its family is wide, as netip keeps it.
abbrev pub Fits : Prefix → Type 0
Fits p = p.bits_plus_one ≤ width p.addr.family + 1

-- The addresses of a shorter prefix of the family come in whole runs of those of a longer one.
span-longer :
    (p q : Prefix)
    → p.addr.family ≡ q.addr.family
    → p.bits_plus_one ≤ q.bits_plus_one
    → Fits q
    → span p ≡ span q * 2 ^ (q.bits_plus_one - p.bits_plus_one)
span-longer p q f h fits =
    let w = width q.addr.family in
    let e : width p.addr.family + 1 - p.bits_plus_one
        ≡ (w + 1 - q.bits_plus_one) + (q.bits_plus_one - p.bits_plus_one) =
      rw f (omega arith) in
    ap (λ x. 2 ^ x) e ∙ pow-add (w + 1 - q.bits_plus_one) (q.bits_plus_one - p.bits_plus_one)

-- Numbers that agree in their leading digits agree in fewer of them.
coarser : (x y s t : ℕ) {r : ℕ} → r ≡ s * t → x / s ≡ y / s → x / r ≡ y / r
coarser x y s t e h =
    rw e (sym (div-div-eq-div-mul x s t) ∙ ap (λ z. z / t) h ∙ div-div-eq-div-mul y s t)

masked-div : (x s t : ℕ) {r : ℕ} → r ≡ s * t → 0 < s → x / s * s / r ≡ x / r
masked-div x s t e h = rw e (
    sym (div-div-eq-div-mul (x / s * s) s t)
    ∙ ap (λ z. z / t) (mul-div_cancel (x / s) h)
    ∙ div-div-eq-div-mul x s t)

family_eq_sound : (f g : Family) → family_eq f g ≡ true → f ≡ g
family_eq_sound f g h = ground arith

family_eq_refl : (f : Family) → family_eq f f ≡ true
family_eq_refl f = ground arith

-- If a prefix that is no longer holds the first address of another, it holds all its addresses.
pub contains-masked :
    (p q : Prefix) (a : Addr)
    → Fits q
    → p.bits_plus_one ≤ q.bits_plus_one
    → contains p (masked q).addr ≡ true
    → contains q a ≡ true
    → contains p a ≡ true
unfolding contains
contains-masked p q a fits le h k =
    let f : p.addr.family ≡ q.addr.family = family_eq_sound _ _ (ground arith) in
    let g : q.addr.family ≡ a.family = family_eq_sound _ _ (ground arith) in
    let s = span-longer p q f le fits in
    let t = 2 ^ (q.bits_plus_one - p.bits_plus_one) in
    let start : p.addr.value / span p ≡ q.addr.value / span q * span q / span p = ground arith in
    let inside : q.addr.value / span q ≡ a.value / span q = ground arith in
    let same : p.addr.value / span p ≡ a.value / span p =
      start
      ∙ masked-div q.addr.value (span q) t s (pow-pos (width q.addr.family + 1 - q.bits_plus_one))
      ∙ coarser q.addr.value a.value (span q) t s inside in
    ground arith

-- Two prefixes that hold one address overlap.
pub overlaps-contains :
    (p q : Prefix) (a : Addr)
    → Fits p
    → Fits q
    → contains p a ≡ true
    → contains q a ≡ true
    → overlaps p q ≡ true
unfolding contains overlaps
overlaps-contains p q a fp fq h k =
    let f : p.addr.family ≡ a.family = family_eq_sound _ _ (ground arith) in
    let g : q.addr.family ≡ a.family = family_eq_sound _ _ (ground arith) in
    let hp : p.addr.value / span p ≡ a.value / span p = ground arith in
    let hq : q.addr.value / span q ≡ a.value / span q = ground arith in
    elim (Bool-cases (leb p.bits_plus_one q.bits_plus_one)) [
      | inl le ↦
          let s = span-longer p q (f ∙ sym g) (leb→le _ _ le) fq in
          let t = 2 ^ (q.bits_plus_one - p.bits_plus_one) in
          let same : p.addr.value / span p ≡ q.addr.value / span p =
            hp ∙ sym (coarser q.addr.value a.value (span q) t s hq) in
          ground arith
      | inr gt ↦
          let s = span-longer q p (g ∙ sym f) (ground arith) fp in
          let t = 2 ^ (p.bits_plus_one - q.bits_plus_one) in
          let same : p.addr.value / span q ≡ q.addr.value / span q =
            coarser p.addr.value a.value (span p) t s hp ∙ sym hq in
          ground arith
    ]
