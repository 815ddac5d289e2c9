-- ===== src/Tests/Protocol.antt =====
-- Messages that pass and messages that do not: runs of the theorems on the protocol.
use nostmesh.Base.{
  ℕ, ◌+◌, ◌*◌, String, string_eq, ◌≡◌, ◌↔◌, refl, ap, ◌∙◌, List, [], ◌∷◌, Option, some, none, pos,
  negsuc, ℤ, All, arith, length,
}
use Prim.Native.Char.{code}
use text.Mathlib.TextEquality.{Char-path}
use nostmesh.Base.Outcome.{value}
use nostmesh.Base.Time.{second, unix_epoch}
use nostmesh.Net.{Prefix, v4}
use nostmesh.Protocol.Checks.{first_error, hex_decode}
use nostmesh.Protocol.Envelope.{Envelope, is_known}
use nostmesh.Protocol.Fields.{
  int_eq, check_bytes, validate_hex_field, check_supported, validate_critical, window_checks,
  validate_window, check_reply_to, field_checks, validate_fields, envelope_checks,
  validate_envelope,
}
use nostmesh.Protocol.Accepted.{ValidEnvelope, validate_envelope-ValidEnvelope}
use nostmesh.Protocol.Messages.{Payload, matches_envelope, RouteAnnounce}
use nostmesh.Protocol.Only.{nothing, Sole, matches_envelope-Sole}
use nostmesh.Protocol.Payloads.{validate_route_announce}
use nostmesh.Protocol.Announced.{Announcement, validate_route_announce-Announcement}
use nostmesh.Protocol.Bound.{bound_fields, associated_data}
use nostmesh.Protocol.Binding.{Short, SameBound, associated_data-SameBound}

abbrev letter : Envelope
letter = record {
  version = pos 1;
  namespace = "org.nostmesh.experimental";
  type = "session.accept";
  message_id = "000102030405060708090a0b0c0d0e0f";
  session_id = "000102030405060708090a0b0c0d0e0f000102030405060708090A0B0C0D0E0F";
  seq = 3;
  created_at = pos 1000;
  expires_at = pos 1300;
  sender = "100102030405060708090a0b0c0d0e0f000102030405060708090a0b0c0d0e0f";
  recipient = "200102030405060708090a0b0c0d0e0f000102030405060708090a0b0c0d0e0f";
  reply_to = "";
  body = "aGk=";
  critical = [];
}

abbrev base64 : String → Option (List ℕ)
base64 text = some (1 ∷ [])

abbrev here : String
here = letter.recipient

abbrev now : ℕ
now = (unix_epoch + 1100) * second

letter_passes : validate_envelope base64 letter here now ≡ none
unfolding validate_envelope envelope_checks validate_fields field_checks validate_window
    window_checks validate_hex_field check_bytes check_reply_to validate_critical check_supported
    first_error int_eq is_known hex_decode
letter_passes = refl

validate_envelope-ValidEnvelope_example :
    (validate_envelope base64 letter here now ≡ none) ↔ ValidEnvelope base64 here now letter
validate_envelope-ValidEnvelope_example = validate_envelope-ValidEnvelope base64 letter here now

abbrev accepting : Payload
accepting = record nothing { accept = some (record { offer_hash = "00" }) }

matches_envelope-Sole_example :
    (matches_envelope accepting "session.accept" ≡ none) ↔ Sole accepting "session.accept"
matches_envelope-Sole_example = matches_envelope-Sole accepting "session.accept"

abbrev prefix_of : String → Option Prefix
prefix_of text =
    some (record { addr = record { family = v4; value = 167_772_160 }; bits_plus_one = 9 })

abbrev offered : RouteAnnounce
offered = record {
  routes = record { prefix = "10.0.0.0/8"; metric = 1; capabilities = [] } ∷ [];
  network_id = "lab";
  version = 1;
  valid_until = pos 2000;
}

validate_route_announce-Announcement_example :
    (validate_route_announce prefix_of offered ≡ none) ↔ Announcement prefix_of offered
validate_route_announce-Announcement_example =
    validate_route_announce-Announcement prefix_of offered

-- {"[":[]}
abbrev document : List ℕ
document = 123 ∷ 34 ∷ 91 ∷ 34 ∷ 58 ∷ 91 ∷ 93 ∷ 125 ∷ []

abbrev codes : String → List ℕ
codes String.[] = []
codes (String.◌∷◌ c text) = code c ∷ codes text

abbrev decimal : ℤ → List ℕ
decimal (pos n) = n ∷ []
decimal (negsuc n) = 0 ∷ n ∷ []

next_code : List ℕ → ℕ
next_code [] = 0
next_code (x ∷ xs) = x

rest_of : List ℕ → List ℕ
rest_of [] = []
rest_of (x ∷ xs) = xs

codes_apart : (a b : String) → codes a ≡ codes b → a ≡ b
unfolding next_code rest_of
codes_apart String.[] String.[] e = refl
codes_apart String.[] (String.◌∷◌ d t) e = absurd (ground (arith, ap (λ l. length l) e))
codes_apart (String.◌∷◌ c s) String.[] e = absurd (ground (arith, ap (λ l. length l) e))
codes_apart (String.◌∷◌ c s) (String.◌∷◌ d t) e =
    ap (λ x. String.◌∷◌ x s) (Char-path c d (ap (λ l. next_code l) e))
    ∙ ap (λ x. String.◌∷◌ d x) (codes_apart s t (ap (λ l. rest_of l) e))

decimal_apart : (a b : ℤ) → decimal a ≡ decimal b → a ≡ b
unfolding next_code rest_of
decimal_apart (pos m) (pos n) e = ap pos (ap (λ l. next_code l) e)
decimal_apart (pos m) (negsuc n) e = absurd (omega (arith, ap (λ l. length l) e))
decimal_apart (negsuc m) (pos n) e = absurd (omega (arith, ap (λ l. length l) e))
decimal_apart (negsuc m) (negsuc n) e = ap negsuc (ap (λ l. next_code (rest_of l)) e)

-- The body and what is replied to are not bound.
abbrev other_letter : Envelope
other_letter = record letter { body = "eA=="; reply_to = "000102030405060708090a0b0c0d0e0f" }

letter_is_Short : All Short (bound_fields codes decimal letter)
unfolding bound_fields
letter_is_Short = (
  omega arith,
  (
    omega arith,
    (
      omega arith,
      (
        omega arith,
        (
          omega arith,
          (omega arith, (omega arith, (omega arith, (omega arith, (omega arith, tt))))),
        ),
      ),
    ),
  ),
)

other_letter_is_Short : All Short (bound_fields codes decimal other_letter)
unfolding bound_fields
other_letter_is_Short = letter_is_Short

same_bytes : associated_data codes decimal letter ≡ associated_data codes decimal other_letter
unfolding associated_data bound_fields
same_bytes = refl

associated_data-SameBound_example : SameBound letter other_letter
associated_data-SameBound_example =
    associated_data-SameBound codes decimal letter other_letter codes_apart decimal_apart
      letter_is_Short other_letter_is_Short same_bytes
