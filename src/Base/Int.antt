-- ===== src/Base/Int.antt =====
-- Signed integers over the native numbers, for `time.Duration`, which may be negative.
use Prim.Native.Nat.{ℕ, suc}
use mathlib.Core.Bool.{Bool}
use nostmesh.Base.Tests.{leb}

-- `negsuc n` is -(n + 1).
pub data ℤ : Type 0 where
  pos : ℕ → ℤ
  negsuc : ℕ → ℤ

abbrev pub pos_part : ℤ → ℕ
pos_part (pos n) = n
pos_part (negsuc n) = 0

abbrev pub neg_part : ℤ → ℕ
neg_part (pos n) = 0
neg_part (negsuc n) = suc n

-- d <= 0.
abbrev pub is_nonpos : ℤ → Bool
is_nonpos d = leb (pos_part d) 0
