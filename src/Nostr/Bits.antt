-- ===== src/Nostr/Bits.antt =====
-- The regrouping of bits that bech32 does (internal/nostr/bech32.go).
use Prim.Native.Nat.{◌*◌, ◌/◌, ◌%◌, ◌^◌}
use nostmesh.Base.{
  ℕ, zero, suc, ◌+◌, ◌-◌, Bool, not, ◌||◌, List, [], ◌∷◌, ◌++◌, Option, none, some, nat_eq, leb,
  ltb, if◌then◌else◌,
}

-- A shift of a uint32 to the left.
abbrev pub shifted : ℕ → ℕ → ℕ
shifted x n = x * 2 ^ n % 2 ^ 32

-- The low bits that `narrow` keeps; the mask never exceeds a byte.
abbrev pub narrow : ℕ → ℕ → ℕ
narrow to x = x % 2 ^ to

-- The inner loop, while a whole group is held: the groups, and how many bits are left. Each turn
-- takes at least one bit, so that the first argument, which counts turns, is enough at `bits`.
unfoldable pub groups : ℕ → ℕ → ℕ → ℕ → List ℕ × ℕ
groups zero to acc bits = ([], bits)
groups (suc turns) to acc bits =
    let (out, left) = groups turns to acc (bits - to) in
    if leb to bits then (narrow to (acc / 2 ^ (bits - to)) ∷ out, left) else ([], bits)

-- What follows the outer loop.
unfoldable pub last_group : ℕ → ℕ → Bool → ℕ → ℕ → Option (List ℕ)
last_group from to pad acc bits =
    if pad
    then some (if ltb 0 bits then narrow to (shifted acc (to - bits)) ∷ [] else [])
    else if leb from bits || not (nat_eq (narrow to (shifted acc (to - bits))) 0)
    then none
    else some []

-- The outer loop, from what is held: the values that are still to come. The value fills bits that
-- the shift has left free, so that to combine them is to add.
unfoldable pub regroup : ℕ → ℕ → Bool → ℕ → ℕ → List ℕ → Option (List ℕ)
unfolding groups last_group
regroup from to pad acc bits [] = last_group from to pad acc bits
regroup from to pad acc bits (v ∷ vs) =
    let held = shifted acc from + v in
    let (out, left) = groups (bits + from) to held (bits + from) in
    let later : Option (List ℕ) = elim (regroup from to pad held left vs) [
      | none ↦ none
      | some rest ↦ some (out ++ rest)
    ] in
    if nat_eq (v / 2 ^ from) 0 then later else none

unfoldable pub convert_bits : List ℕ → ℕ → ℕ → Bool → Option (List ℕ)
unfolding regroup
convert_bits values from to pad = regroup from to pad 0 0 values
