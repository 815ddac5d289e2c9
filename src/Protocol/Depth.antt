-- ===== src/Protocol/Depth.antt =====
-- The bound on nesting that is checked before JSON is read (internal/protocol/validate.go).
use nostmesh.Base.{
  ℕ, zero, suc, Bool, true, false, not, ◌&&◌, ◌||◌, List, [], ◌∷◌, ℤ, pos, negsuc, none, some, ltb,
  nat_eq, if◌then◌else◌,
}
use nostmesh.Protocol.Checks.{too_large, Check}
use nostmesh.Protocol.Envelope.{max_json_depth}

-- d + 1 and d - 1 on int, which a document cannot overflow.
abbrev pub up : ℤ → ℤ
up (pos n) = pos (suc n)
up (negsuc zero) = pos 0
up (negsuc (suc n)) = negsuc n

abbrev pub down : ℤ → ℤ
down (pos zero) = negsuc 0
down (pos (suc n)) = pos n
down (negsuc n) = negsuc (suc n)

abbrev pub exceeds : ℤ → ℕ → Bool
exceeds (pos n) m = ltb m n
exceeds (negsuc n) m = false

-- What the loop holds between two bytes.
pub record Scan : Type 0 where
  pub depth : ℤ
  pub max : ℕ
  pub in_string : Bool
  pub escaped : Bool

abbrev pub deeper : ℤ → ℕ → ℕ
deeper (pos n) m = if ltb m n then n else m
deeper (negsuc n) m = m

abbrev pub opens : ℕ → Bool
opens b = nat_eq b 123 || nat_eq b 91

abbrev pub closes : ℕ → Bool
closes b = nat_eq b 125 || nat_eq b 93

-- One turn of the loop, up to the comparison with the limit.
unfoldable pub turn : ℕ → Scan → Scan
turn b s =
    if s.escaped
    then record s { escaped = false }
    else if nat_eq b 92 && s.in_string
    then record s { escaped = true }
    else if nat_eq b 34
    then record s { in_string = not s.in_string }
    else if s.in_string
    then s
    else if opens b
    then record s { depth = up s.depth; max = deeper (up s.depth) s.max }
    else if closes b
    then record s { depth = down s.depth }
    else s

-- The limit is looked at where a byte opens a level; elsewhere `max` has not changed.
unfoldable pub scan : Scan → List ℕ → Check
scan s [] = none
scan s (b ∷ bs) =
    let rest = scan (turn b s) bs in
    if ltb max_json_depth (turn b s).max then some too_large else rest

abbrev pub start : Scan
start = record { depth = pos 0; max = 0; in_string = false; escaped = false }

unfoldable pub check_depth : List ℕ → Check
check_depth raw = scan start raw
