-- ===== src/Protocol/Fields.antt =====
-- The checks of an envelope's fields and of its whole (internal/protocol/validate.go), for a given
-- reading of base64. The seconds that an envelope names are taken to give an instant.
use nostmesh.Base.{
  ℕ, ◌+◌, ◌-◌, String, Bool, false, not, ◌&&◌, ◌||◌, List, [], ◌∷◌, any, map, length, ℤ, pos,
  negsuc, Option, none, some, is_some, ltb, nat_eq, if◌then◌else◌, string_eq, ◌==◌, is_nonpos,
}
use Prim.Native.String.{len}
use nostmesh.Base.Time.{before, from_unix}
use nostmesh.Session.Start.{all_zero}
use nostmesh.Protocol.Checks.{
  unsupported_version, unknown_namespace, unknown_type, critical_extension, too_large, expired,
  not_yet_valid, wrong_recipient, malformed, Check, refuse_if, first_error, hex_decode,
}
use nostmesh.Protocol.Envelope.{
  version, namespace, max_payload_size, max_critical_extensions, max_clock_skew, max_validity,
  is_known, Envelope,
}

abbrev pub supported_extensions : List String
supported_extensions = []

-- Go's `==` on numbers of an envelope.
unfoldable pub int_eq : ℤ → ℤ → Bool
int_eq (pos m) (pos n) = nat_eq m n
int_eq (negsuc m) (negsuc n) = nat_eq m n
int_eq _ _ = false

-- The bytes that a text of hexadecimal digits gives.
unfoldable pub check_bytes : ℕ → Option (List ℕ) → Check
check_bytes want none = some malformed
check_bytes want (some raw) =
    first_error (
      refuse_if (not (nat_eq (length raw) want)) malformed
      ∷ refuse_if (all_zero raw) malformed
      ∷ [])

unfoldable pub validate_hex_field : String → ℕ → Check
validate_hex_field value want =
    first_error (refuse_if (value == "") malformed ∷ check_bytes want (hex_decode value) ∷ [])

unfoldable pub check_supported : String → Check
check_supported x = refuse_if (not (any (λ s. s == x) supported_extensions)) critical_extension

unfoldable pub validate_critical : List String → Check
validate_critical xs =
    first_error
      (refuse_if (ltb max_critical_extensions (length xs)) too_large ∷ map check_supported xs)

unfoldable pub window_checks : Envelope → ℕ → List Check
window_checks e now =
    let created = from_unix e.created_at in
    let expires = from_unix e.expires_at in
    refuse_if (is_nonpos e.created_at || is_nonpos e.expires_at) malformed
    ∷ refuse_if (not (before created expires)) malformed
    ∷ refuse_if (ltb max_validity (expires - created)) malformed
    ∷ refuse_if (before (now + max_clock_skew) created) not_yet_valid
    ∷ refuse_if (before (expires + max_clock_skew) now) expired
    ∷ []

unfoldable pub validate_window : Envelope → ℕ → Check
validate_window e now = first_error (window_checks e now)

unfoldable pub check_reply_to : String → Check
check_reply_to value = if value == "" then none else validate_hex_field value 16

module _ (base64 : String → Option (List ℕ)) where
  unfoldable pub field_checks : Envelope → List Check
  field_checks e =
      validate_hex_field e.message_id 16
      ∷ validate_hex_field e.session_id 32
      ∷ validate_hex_field e.sender 32
      ∷ validate_hex_field e.recipient 32
      ∷ refuse_if (e.sender == e.recipient) malformed
      ∷ check_reply_to e.reply_to
      ∷ refuse_if (e.body == "") malformed
      ∷ refuse_if (ltb max_payload_size (len e.body)) too_large
      ∷ refuse_if (not (is_some (base64 e.body))) malformed
      ∷ []

  unfoldable pub validate_fields : Envelope → Check
  validate_fields e = first_error (field_checks e)

  unfoldable pub envelope_checks : Envelope → String → ℕ → List Check
  envelope_checks e local_node now =
      refuse_if (not (int_eq e.version version)) unsupported_version
      ∷ refuse_if (not (e.namespace == namespace)) unknown_namespace
      ∷ refuse_if (not (is_known e.type)) unknown_type
      ∷ validate_critical e.critical
      ∷ validate_fields e
      ∷ refuse_if (not (local_node == "") && not (e.recipient == local_node)) wrong_recipient
      ∷ validate_window e now
      ∷ []

  unfoldable pub validate_envelope : Envelope → String → ℕ → Check
  validate_envelope e local_node now = first_error (envelope_checks e local_node now)
