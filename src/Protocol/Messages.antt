-- ===== src/Protocol/Messages.antt =====
-- The messages that a payload may carry, besides those of a handshake, and which one it carries
-- (internal/protocol/messages.go).
use nostmesh.Base.{
  ℕ, suc, zero, ◌+◌, String, Bool, true, false, not, List, [], ◌∷◌, any, ℤ, Option, some, is_some,
  string_eq, ◌==◌,
}
use nostmesh.Base.Outcome.{Result, value, error}
use nostmesh.Session.Types.{SessionRequest, SessionOffer, SessionAccept}
use nostmesh.Protocol.Checks.{
  Error, empty_payload, multiple_payloads, type_mismatch, Check, refuse_if,
}
use nostmesh.Protocol.Envelope.{
  MessageType, type_session_request, type_session_offer, type_session_accept, type_candidate_update,
  type_session_ready, type_session_keepalive, type_session_close, type_session_error,
  type_route_announce, type_route_withdraw,
}

abbrev pub known_candidate_types : List String
known_candidate_types = "host" ∷ "srflx" ∷ "relay" ∷ "static" ∷ []

unfoldable pub candidate_type_is_known : String → Bool
candidate_type_is_known t = any (λ k. k == t) known_candidate_types

pub record Candidate : Type 0 where
  pub id : String
  pub type : String
  pub transport : String
  pub address : String
  pub priority : ℕ
  pub related_address : String
  pub expires_at : ℤ

pub record CandidateUpdate : Type 0 where
  pub added : List Candidate
  pub removed : List String
  pub final : Bool

pub record AnnouncedRoute : Type 0 where
  pub prefix : String
  pub metric : ℕ
  pub capabilities : List String

pub record RouteAnnounce : Type 0 where
  pub routes : List AnnouncedRoute
  pub network_id : String
  pub version : ℕ
  pub valid_until : ℤ

pub record RouteWithdraw : Type 0 where
  pub prefixes : List String
  pub network_id : String
  pub version : ℕ

pub record SessionReady : Type 0 where
  pub selected_candidate : String

pub record SessionKeepalive : Type 0 where
  pub sequence : ℕ

pub record SessionClose : Type 0 where
  pub reason : String

pub record SessionError : Type 0 where
  pub code : String

pub record Payload : Type 0 where
  pub request : Option SessionRequest
  pub offer : Option SessionOffer
  pub accept : Option SessionAccept
  pub candidate : Option CandidateUpdate
  pub ready : Option SessionReady
  pub keepalive : Option SessionKeepalive
  pub close : Option SessionClose
  pub error : Option SessionError
  pub route_announce : Option RouteAnnounce
  pub route_withdraw : Option RouteWithdraw

-- The table that `TypeOf` goes through.
unfoldable pub present : Payload → List (Bool × MessageType)
present p =
    (is_some p.request, type_session_request)
    ∷ (is_some p.offer, type_session_offer)
    ∷ (is_some p.accept, type_session_accept)
    ∷ (is_some p.candidate, type_candidate_update)
    ∷ (is_some p.ready, type_session_ready)
    ∷ (is_some p.keepalive, type_session_keepalive)
    ∷ (is_some p.close, type_session_close)
    ∷ (is_some p.error, type_session_error)
    ∷ (is_some p.route_announce, type_route_announce)
    ∷ (is_some p.route_withdraw, type_route_withdraw)
    ∷ []

-- The loop: the last type found, and how many were.
unfoldable pub count_present : MessageType → ℕ → List (Bool × MessageType) → MessageType × ℕ
count_present found count [] = (found, count)
count_present found count ((true, kind) ∷ set) = count_present kind (count + 1) set
count_present found count ((false, kind) ∷ set) = count_present found count set

unfoldable pub one_type : MessageType × ℕ → Result Error MessageType
one_type (found, zero) = error empty_payload
one_type (found, suc zero) = value found
one_type (found, suc (suc n)) = error multiple_payloads

unfoldable pub type_of : Payload → Result Error MessageType
type_of p = one_type (count_present "" 0 (present p))

unfoldable pub check_type : MessageType → Result Error MessageType → Check
check_type declared (error e) = some e
check_type declared (value actual) = refuse_if (not (actual == declared)) type_mismatch

unfoldable pub matches_envelope : Payload → MessageType → Check
matches_envelope p declared = check_type declared (type_of p)
