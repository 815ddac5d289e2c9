-- ===== src/Base/Outcome.antt =====
-- Stateful code that may fail: an error leaves the state as the code had it at that point, which
-- need not be the state before the call.
use mathlib.Core.Bool.{Bool, true, false}

pub data Outcome (S E A : Type 0) : Type 0 where
  ok : A → S → Outcome S E A
  err : E → S → Outcome S E A

abbrev pub M : Type 0 → Type 0 → Type 0 → Type 0
M S E A = S → Outcome S E A

infixl 5 ◌>>=◌ ◌>>◌
abbrev pub ◌>>=◌ : {S E A B : Type 0} → M S E A → (A → M S E B) → M S E B
◌>>=◌ m f s = elim (m s) [ ok a t ↦ f a t | err e t ↦ err e t ]

abbrev pub ◌>>◌ : {S E B : Type 0} → M S E (Unit {0}) → M S E B → M S E B
◌>>◌ m k s = elim (m s) [ ok _ t ↦ k t | err e t ↦ err e t ]

abbrev pub pure : {S E A : Type 0} → A → M S E A
pure a s = ok a s

abbrev pub throw : {S E A : Type 0} → E → M S E A
throw e s = err e s

-- Goes on if the test passes, and returns the error early if it does not.
abbrev pub require : {S E : Type 0} → (S → Bool) → E → M S E (Unit {0})
require test e s = elim (test s) [ true ↦ ok tt s | false ↦ err e s ]

abbrev pub modify : {S E : Type 0} → (S → S) → M S E (Unit {0})
modify f s = ok tt (f s)

abbrev pub get : {S E A : Type 0} → (S → A) → M S E A
get f s = ok (f s) s

-- The state that a call leaves behind, failed or not.
abbrev pub final : {S E A : Type 0} → Outcome S E A → S
final (ok a s) = s
final (err e s) = s

abbrev pub succeeds : {S E A : Type 0} → Outcome S E A → Bool
succeeds (ok a s) = true
succeeds (err e s) = false

-- A call that returns a value or an error, and changes nothing.
pub data Result (E A : Type 0) : Type 0 where
  value : A → Result E A
  error : E → Result E A
