-- ===== src/Base/Time.antt =====
-- time.Time and time.Duration. An instant is the number of nanoseconds since Go's zero instant, so
-- that 0 is the unset time; a duration is signed, and one that reaches before the zero instant
-- stops there.
use Prim.Native.Nat.{ℕ, ◌+◌, ◌-◌, ◌*◌, ◌/◌}
use mathlib.Core.Bool.{Bool}
use nostmesh.Base.Tests.{ltb, leb, if◌then◌else◌}
use nostmesh.Base.Int.{ℤ, pos, negsuc, pos_part, neg_part}

-- t.Before(u)
abbrev pub before : ℕ → ℕ → Bool
before t u = ltb t u

-- t.Add(d)
abbrev pub add_duration : ℕ → ℤ → ℕ
add_duration t d = t + pos_part d - neg_part d

abbrev pub second : ℕ
second = 1_000_000_000

-- Seconds from the zero instant to the Unix epoch.
abbrev pub unix_epoch : ℕ
unix_epoch = 62_135_596_800

-- time.Unix(s, 0)
abbrev pub from_unix : ℤ → ℕ
from_unix s = (unix_epoch + pos_part s - neg_part s) * second

-- t.Unix()
abbrev pub to_unix : ℕ → ℤ
to_unix t =
    let s = t / second in
    if leb unix_epoch s then pos (s - unix_epoch) else negsuc (unix_epoch - s - 1)
