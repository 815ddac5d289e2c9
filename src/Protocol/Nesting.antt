-- ===== src/Protocol/Nesting.antt =====
-- The nesting of a document, without a count of the deepest level.
use nostmesh.Base.{
  ℕ, zero, suc, ◌≤◌, ◌≡◌, ◌↔◌, refl, ◌∙◌, Bool, true, false, not, List, [], ◌∷◌, ℤ, pos, negsuc,
  none, some, ltb, nat_eq, if◌then◌else◌, arith, Bool-cases, inl, inr,
}
use nostmesh.Protocol.Checks.{too_large}
use nostmesh.Protocol.Depth.{
  up, down, exceeds, Scan, deeper, opens, closes, turn, scan, check_depth,
}

-- What stands outside of strings, given whether a string is open and a backslash came last.
abbrev pub outside : Bool → Bool → List ℕ → List ℕ
outside within escaped [] = []
outside within true (b ∷ bs) = outside within false bs
outside true false (b ∷ bs) = outside (not (nat_eq b 34)) (nat_eq b 92) bs
outside false false (b ∷ bs) =
    let rest = outside (nat_eq b 34) false bs in if nat_eq b 34 then rest else b ∷ rest

-- The level after a byte.
abbrev pub level : ℤ → ℕ → ℤ
level d b = if opens b then up d else if closes b then down d else d

-- From a level on, no bracket leads below the sixteenth.
abbrev pub Shallow : ℤ → List ℕ → Type 0
Shallow d [] = Unit
Shallow d (b ∷ bs) = (exceeds (level d b) 16 ≡ false) × Shallow (level d b) bs

abbrev state : ℤ → ℕ → Bool → Bool → Scan
state d m within escaped = record { depth = d; max = m; in_string = within; escaped = escaped }

scan-nil : (s : Scan) → scan s [] ≡ none
unfolding scan
scan-nil s = refl

scan-on :
    (b : ℕ) (bs : List ℕ) (s t : Scan) → turn b s ≡ t → t.max ≤ 16 → scan s (b ∷ bs) ≡ scan t bs
unfolding scan
scan-on b bs s t e m = rw (scan, e) (ground (arith, m))

scan-stops :
    (b : ℕ) (bs : List ℕ) (s t : Scan)
    → turn b s ≡ t
    → ltb 16 t.max ≡ true
    → scan s (b ∷ bs) ≡ some too_large
unfolding scan
scan-stops b bs s t e m = rw (scan, e, m) refl

turn_escaped :
    (b : ℕ) (d : ℤ) (m : ℕ) (within : Bool)
    → turn b (state d m within true) ≡ state d m within false
unfolding turn
turn_escaped b d m within = refl

turn_within :
    (b : ℕ) (d : ℤ) (m : ℕ)
    → turn b (state d m true false) ≡ state d m (not (nat_eq b 34)) (nat_eq b 92)
unfolding turn
turn_within b d m = ground arith

turn_quote :
    (b : ℕ) (d : ℤ) (m : ℕ)
    → nat_eq b 34 ≡ true
    → turn b (state d m false false) ≡ state d m true false
unfolding turn
turn_quote b d m q = ground arith

-- The deepest level after a byte that stands outside of strings.
abbrev deepest : ℤ → ℕ → ℕ → ℕ
deepest d m b = if opens b then deeper (up d) m else m

turn_outside :
    (b : ℕ) (d : ℤ) (m : ℕ)
    → nat_eq b 34 ≡ false
    → turn b (state d m false false) ≡ state (level d b) (deepest d m b) false false
unfolding turn
turn_outside b d m q = ground arith

deepest-exceeds :
    (b : ℕ) (d : ℤ) (m : ℕ)
    → m ≤ 16
    → exceeds d 16 ≡ false
    → ltb 16 (deepest d m b) ≡ exceeds (level d b) 16
deepest-exceeds b (pos zero) m l x = ground arith
deepest-exceeds b (pos (suc n)) m l x = ground arith
deepest-exceeds b (negsuc zero) m l x = ground arith
deepest-exceeds b (negsuc (suc n)) m l x = ground arith

scan-Shallow :
    (bs : List ℕ) (d : ℤ) (m : ℕ) (within escaped : Bool)
    → m ≤ 16
    → exceeds d 16 ≡ false
    → (scan (state d m within escaped) bs ≡ none) ↔ Shallow d (outside within escaped bs)
scan-Shallow [] d m within escaped l x = (λ h. tt, λ h. scan-nil (state d m within escaped))
scan-Shallow (b ∷ bs) d m within true l x =
    rw (scan-on b bs (state d m within true) (state d m within false) (turn_escaped b d m within) l)
      (scan-Shallow bs d m within false l x)
scan-Shallow (b ∷ bs) d m true false l x =
    rw
      (scan-on b bs (state d m true false) (state d m (not (nat_eq b 34)) (nat_eq b 92))
        (turn_within b d m) l)
      (scan-Shallow bs d m (not (nat_eq b 34)) (nat_eq b 92) l x)
scan-Shallow (b ∷ bs) d m false false l x = elim (Bool-cases (nat_eq b 34)) [
  | inl q ↦
      rw (scan-on b bs (state d m false false) (state d m true false) (turn_quote b d m q) l, q)
        (scan-Shallow bs d m true false l x)
  | inr q ↦ elim (Bool-cases (exceeds (level d b) 16)) [
    | inl y ↦
        rw
          (
            scan-stops b bs (state d m false false) (state (level d b) (deepest d m b) false false)
                (turn_outside b d m q) (deepest-exceeds b d m l x ∙ y),
            q,
          )
          (λ h. absurd (ground (arith, h)), λ h. absurd (ground (arith, h.0)))
    | inr y ↦
        let on =
          scan-Shallow bs (level d b) (deepest d m b) false false
            (ground (arith, deepest-exceeds b d m l x)) y in
        rw
          (
            scan-on b bs (state d m false false) (state (level d b) (deepest d m b) false false)
                (turn_outside b d m q) (ground (arith, deepest-exceeds b d m l x)),
            q,
          )
          (λ h. (y, on.0 h), λ h. on.1 (h.1))
  ]
]

-- The check accepts exactly the documents in which, strings left out, no prefix opens more than
-- sixteen brackets beyond those that it closes.
pub check_depth-Shallow :
    (raw : List ℕ) → (check_depth raw ≡ none) ↔ Shallow (pos 0) (outside false false raw)
unfolding check_depth
check_depth-Shallow raw = scan-Shallow raw (pos 0) 0 false false (omega arith) refl
