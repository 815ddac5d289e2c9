-- ===== src/Session/Bytes.antt =====
-- Keys and tags are compared as arrays of bytes.
use nostmesh.Base.{ℕ, ◌≡◌, refl, true, List, [], ◌∷◌, nat_eq_iff, arith}
use nostmesh.Session.Start.{bytes_eq}

pub bytes_eq_refl : (xs : List ℕ) → bytes_eq xs xs ≡ true
bytes_eq_refl [] = refl
bytes_eq_refl (x ∷ xs) = ground (arith, nat_eq_iff x x, bytes_eq_refl xs)

pub bytes_eq_sound : (xs ys : List ℕ) → bytes_eq xs ys ≡ true → xs ≡ ys
bytes_eq_sound [] [] h = refl
bytes_eq_sound [] (y ∷ ys) h = absurd (ground arith)
bytes_eq_sound (x ∷ xs) [] h = absurd (ground arith)
bytes_eq_sound (x ∷ xs) (y ∷ ys) h =
    let e : x ≡ y = ground arith in rw (e, bytes_eq_sound xs ys (ground arith)) refl
