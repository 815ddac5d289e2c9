-- ===== src/Protocol/Checks.antt =====
-- Checks that return nil or the first error, and the reading of hexadecimal digits as Go's
-- encoding/hex does it.
use nostmesh.Base.{
  ℕ, ◌+◌, ◌-◌, ◌*◌, String, ◌≡◌, ◌↔◌, refl, Bool, ◌&&◌, List, [], ◌∷◌, Option, none, some, leb,
  if◌then◌else◌, arith, All, string_eq,
}
use Prim.Native.Char.{code}

-- The errors that a check reports (envelope.go, messages.go).
pub data Error : Type 0 where
  unsupported_version unknown_namespace unknown_type critical_extension too_large : Error
  expired not_yet_valid wrong_recipient malformed : Error
  empty_payload multiple_payloads type_mismatch : Error

-- What a check returns: none is nil.
abbrev pub Check : Type 0
Check = Option Error

abbrev pub refuse_if : Bool → Error → Check
refuse_if failing e = if failing then some e else none

-- One check after another, as long as they return nil.
unfoldable pub first_error : List Check → Check
first_error [] = none
first_error (none ∷ checks) = first_error checks
first_error (some e ∷ checks) = some e

abbrev pub AllPass : List Check → Type 0
AllPass = All (λ c. c ≡ none)

pub first_error-AllPass : (checks : List Check) → (first_error checks ≡ none) ↔ AllPass checks
unfolding first_error
first_error-AllPass [] = (λ h. tt, λ h. refl)
first_error-AllPass (none ∷ checks) =
    ((λ h. (refl, (first_error-AllPass checks).0 h)), (λ h. (first_error-AllPass checks).1 (h.1)))
first_error-AllPass (some e ∷ checks) =
    (λ h. absurd (ground arith), λ h. absurd (ground (arith, h.0)))

abbrev pub digit : ℕ → Option ℕ
digit c =
    if leb 48 c && leb c 57
    then some (c - 48)
    else if leb 97 c && leb c 102
    then some (c - 87)
    else if leb 65 c && leb c 70
    then some (c - 55)
    else none

abbrev pub join : Option ℕ → Option ℕ → Option (List ℕ) → Option (List ℕ)
join (some high) (some low) (some rest) = some ((high * 16 + low) ∷ rest)
join _ _ _ = none

-- hex.DecodeString
unfoldable pub hex_decode : String → Option (List ℕ)
hex_decode String.[] = some []
hex_decode (String.◌∷◌ c String.[]) = none
hex_decode (String.◌∷◌ c (String.◌∷◌ d text)) =
    join (digit (code c)) (digit (code d)) (hex_decode text)
