-- ===== src/Protocol/Envelope.antt =====
-- The envelope and its limits (internal/protocol/envelope.go).
use nostmesh.Base.{ℕ, ◌*◌, String, Bool, List, [], ◌∷◌, any, ℤ, pos, string_eq, ◌==◌}
use nostmesh.Base.Time.{second}

abbrev pub version : ℤ
version = pos 1

abbrev pub namespace : String
namespace = "org.nostmesh.experimental"

abbrev pub max_envelope_size : ℕ
max_envelope_size = 64 * 1024

abbrev pub max_payload_size : ℕ
max_payload_size = 32 * 1024

abbrev pub max_json_depth : ℕ
max_json_depth = 16

abbrev pub max_critical_extensions : ℕ
max_critical_extensions = 8

abbrev pub max_clock_skew : ℕ
max_clock_skew = 300 * second

abbrev pub max_validity : ℕ
max_validity = 600 * second

-- The name of a message's type, as it stands on the wire.
abbrev pub MessageType : Type 0
MessageType = String

abbrev pub type_session_request : MessageType
type_session_request = "session.request"

abbrev pub type_session_offer : MessageType
type_session_offer = "session.offer"

abbrev pub type_session_accept : MessageType
type_session_accept = "session.accept"

abbrev pub type_candidate_update : MessageType
type_candidate_update = "candidate.update"

abbrev pub type_session_ready : MessageType
type_session_ready = "session.ready"

abbrev pub type_session_keepalive : MessageType
type_session_keepalive = "session.keepalive"

abbrev pub type_session_close : MessageType
type_session_close = "session.close"

abbrev pub type_session_error : MessageType
type_session_error = "session.error"

abbrev pub type_route_announce : MessageType
type_route_announce = "route.announce"

abbrev pub type_route_withdraw : MessageType
type_route_withdraw = "route.withdraw"

abbrev pub known_types : List MessageType
known_types =
    type_session_request ∷ type_session_offer ∷ type_session_accept ∷ type_candidate_update
    ∷ type_session_ready ∷ type_session_keepalive ∷ type_session_close ∷ type_session_error
    ∷ type_route_announce ∷ type_route_withdraw ∷ []

unfoldable pub is_known : MessageType → Bool
is_known t = any (λ k. k == t) known_types

pub record Envelope : Type 0 where
  pub version : ℤ
  pub namespace : String
  pub type : MessageType
  pub message_id : String
  pub session_id : String
  pub seq : ℕ
  pub created_at : ℤ
  pub expires_at : ℤ
  pub sender : String
  pub recipient : String
  pub reply_to : String
  pub body : String
  pub critical : List String
