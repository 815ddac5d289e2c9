-- ===== src/Probe/Bytes.antt =====
-- Numbers as bytes, the highest first, and the instants and addresses that a probe writes.
use nostmesh.Base.{
  ℕ, zero, suc, ◌+◌, ◌-◌, ◌*◌, ◌/◌, ◌%◌, ◌^◌, ◌<◌, ◌≤◌, ◌≡◌, refl, ap, ◌∙◌, List, [], ◌∷◌, ◌++◌,
  length, length-append, leb, ltb, if◌then◌else◌, ℤ, pos, negsuc, arith,
}
use Prim.Native.Nat.pow
use nostmesh.Base.Time.{second, unix_epoch}
use nostmesh.Net.{Addr, unset, v4, v6}

-- The low bytes of a number, as many as are asked for.
unfoldable pub big_endian : ℕ → ℕ → List ℕ
big_endian zero n = []
big_endian (suc k) n = big_endian k (n / 256) ++ (n % 256 ∷ [])

unfoldable pub read_bytes : ℕ → List ℕ → ℕ
read_bytes acc [] = acc
read_bytes acc (b ∷ bs) = read_bytes (acc * 256 + b) bs

pub length-big_endian : (k n : ℕ) → length (big_endian k n) ≡ k
unfolding big_endian
length-big_endian zero n = refl
length-big_endian (suc k) n =
    omega
      (arith, length-append (big_endian k (n / 256)) (n % 256 ∷ []), length-big_endian k (n / 256))

read_bytes-append :
    (acc : ℕ) (xs : List ℕ) (b : ℕ) → read_bytes acc (xs ++ (b ∷ [])) ≡ read_bytes acc xs * 256 + b
unfolding read_bytes
read_bytes-append acc [] b = refl
read_bytes-append acc (x ∷ xs) b = read_bytes-append (acc * 256 + x) xs b

pub read_bytes-big_endian : (k n : ℕ) → n < 256 ^ k → read_bytes 0 (big_endian k n) ≡ n
unfolding big_endian read_bytes
read_bytes-big_endian zero n h = omega arith
read_bytes-big_endian (suc k) n h =
    read_bytes-append 0 (big_endian k (n / 256)) (n % 256)
    ∙ ap (λ x. x * 256 + n % 256) (read_bytes-big_endian k (n / 256) (omega (arith, pow.suc 256 k)))
    ∙ omega arith

-- The epoch of Unix in nanoseconds.
abbrev pub epoch : ℕ
epoch = unix_epoch * second

-- t.UnixNano()
unfoldable pub unix_nano : ℕ → ℤ
unix_nano t = if leb epoch t then pos (t - epoch) else negsuc (epoch - t - 1)

-- time.Unix(0, n)
unfoldable pub from_nano : ℤ → ℕ
from_nano (pos n) = epoch + n
from_nano (negsuc n) = epoch - n - 1

-- uint64(n) of an int64, and int64(n) of a uint64.
unfoldable pub to_uint64 : ℤ → ℕ
to_uint64 (pos n) = n % 2 ^ 64
to_uint64 (negsuc n) = 2 ^ 64 - 1 - n % 2 ^ 64

unfoldable pub to_int64 : ℕ → ℤ
to_int64 n = if ltb n (2 ^ 63) then pos n else negsuc (2 ^ 64 - 1 - n)

-- The number that the sixteen bytes of an address write: an IPv4 address stands in its mapped form,
-- and the zero Addr is written as zeros.
unfoldable pub as_16 : Addr → ℕ
as_16 a = elim a.family [ unset ↦ 0 | v4 ↦ 65_535 * 2 ^ 32 + a.value | v6 ↦ a.value ]

-- An instant that sixty-four bits of nanoseconds can tell.
pub record Telling (t : ℕ) : Type 0 where
  pub late : t < epoch + 2 ^ 63
  pub early : epoch ≤ t + 2 ^ 63

pub instant_returns : (t : ℕ) → Telling t → from_nano (to_int64 (to_uint64 (unix_nano t))) ≡ t
unfolding unix_nano from_nano to_uint64 to_int64
instant_returns t r = ground (arith, r.late, r.early)
