-- ===== src/Session/Types.antt =====
-- The data of a handshake (internal/session/handshake.go), and the messages it reads and writes
-- (internal/protocol/messages.go).
use nostmesh.Base.{ℕ, String, List, Bool, Option, true, false, ℤ}

pub data Role : Type 0 where
  initiator responder : Role

pub data State : Type 0 where
  idle request_sent request_received offer_sent offer_received connecting established : State
  closed failed : State

abbrev pub is_terminal : State → Bool
is_terminal closed = true
is_terminal failed = true
is_terminal _ = false

-- The errors that the operations return, and those of `New`.
pub data Error : Type 0 where
  unexpected_message terminal unauthorized sequence_conflict offer_mismatch : Error
  key_substituted timeout key_expired key_encoding key_size zero_key encoding : Error
  no_session_id no_local_key no_peer_key same_identity no_tunnel_key no_clock : Error

-- A WireGuard key is its bytes; a Nostr key the number that its 32 bytes write, so that 0 is the
-- unset key.
abbrev pub WireGuardKey : Type 0
WireGuardKey = List ℕ

abbrev pub NostrKey : Type 0
NostrKey = ℕ

pub record Capabilities : Type 0 where
  pub protocol_versions : List ℤ
  pub transports : List String
  pub candidate_types : List String
  pub extensions : List String

pub record TunnelKey : Type 0 where
  pub public_key : String
  pub nonce : String
  pub expires_at : ℤ

pub record SessionRequest : Type 0 where
  pub capabilities : Capabilities
  pub tunnel_key : TunnelKey
  pub overlay_address : String

pub record SessionOffer : Type 0 where
  pub capabilities : Capabilities
  pub tunnel_key : TunnelKey
  pub overlay_address : String
  pub agreed_version : ℤ
  pub agreed_transports : List String

pub record SessionAccept : Type 0 where
  pub offer_hash : String

-- What `recordSeq` digests: a message, or the word "ready".
pub data Content : Type 0 where
  request : SessionRequest → Content
  offer : SessionOffer → Content
  accept : SessionAccept → Content
  ready : Content

-- What the handshake calls and does not implement: base64, JSON and SHA-256.
pub record Codec : Type 0 where
  pub decode : String → Option (List ℕ)
  pub encode : List ℕ → String
  pub marshal : Content → Option String
  pub sha256_hex : String → String

pub record Handshake : Type 0 where
  pub role : Role
  pub session_id : ℕ
  pub local_key : NostrKey
  pub peer_key : NostrKey
  pub state : State
  pub local_tunnel_public : WireGuardKey
  pub local_tunnel_private : WireGuardKey
  pub peer_tunnel : Option TunnelKey
  pub offer_hash : String
  pub next_seq : ℕ
  pub seen_seq : List (ℕ × String)
  pub created_at : ℕ
  pub updated_at : ℕ
  pub deadline : ℕ
  pub failure : String

pub record Options : Type 0 where
  pub role : Role
  pub session_id : ℕ
  pub local_key : NostrKey
  pub peer_key : NostrKey
  pub tunnel_public : WireGuardKey
  pub tunnel_private : WireGuardKey
  pub timeout : ℤ
  pub now : ℕ
