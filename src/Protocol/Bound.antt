-- ===== src/Protocol/Bound.antt =====
-- The bytes of an envelope that are authenticated with its body (`AssociatedData`,
-- internal/protocol/envelope.go), for a given writing of texts as bytes and of numbers in decimal.
use nostmesh.Base.{
  ℕ, ◌/◌, ◌%◌, String, List, [], ◌∷◌, ◌++◌, map, length, take, ℤ, pos, ltb, if◌then◌else◌,
}
use nostmesh.Protocol.Envelope.{Envelope}

abbrev pub max_field_length : ℕ
max_field_length = 65_535

unfoldable pub truncated : List ℕ → List ℕ
truncated field = if ltb max_field_length (length field) then take max_field_length field else field

-- A field after its length in two bytes.
unfoldable pub framed : List ℕ → List ℕ
framed field = let f = truncated field in length f / 256 % 256 ∷ (length f % 256 ∷ f)

unfoldable pub frames : List (List ℕ) → List ℕ
frames [] = []
frames (field ∷ fields) = framed field ++ frames fields

module _ (bytes : String → List ℕ) (decimal : ℤ → List ℕ) where
  unfoldable pub bound_fields : Envelope → List (List ℕ)
  bound_fields e =
      (bytes "v=" ++ decimal e.version)
      ∷ (bytes "ns=" ++ bytes e.namespace)
      ∷ (bytes "type=" ++ bytes e.type)
      ∷ (bytes "msg=" ++ bytes e.message_id)
      ∷ (bytes "session=" ++ bytes e.session_id)
      ∷ (bytes "seq=" ++ decimal (pos e.seq))
      ∷ (bytes "created=" ++ decimal e.created_at)
      ∷ (bytes "expires=" ++ decimal e.expires_at)
      ∷ (bytes "from=" ++ bytes e.sender)
      ∷ (bytes "to=" ++ bytes e.recipient)
      ∷ map (λ x. bytes "critical=" ++ bytes x) e.critical

  unfoldable pub associated_data : Envelope → List ℕ
  associated_data e = frames (bound_fields e)
