-- ===== src/Session/Transitions.antt =====
-- The messages of a handshake, built and received (internal/session/transitions.go). An operation
-- is a computation over the handshake: an error keeps what was written before it.
use nostmesh.Base.{
  ℕ, ℕ_eq, string_eq, Bool, ◌||◌, Option, none, some, [], ◌∷◌, String, ◌==◌, ℤ, pos,
}
use nostmesh.Base.Outcome.{ok, err, ◌>>=◌, ◌>>◌, pure, require, modify, get}
use nostmesh.Base.Time.{add_duration, to_unix}
use nostmesh.Session.Types.{
  Role, State, idle, request_sent, request_received, offer_sent, offer_received, connecting,
  established, unexpected_message, unauthorized, offer_mismatch, encoding, NostrKey, Capabilities,
  TunnelKey, SessionRequest, SessionOffer, SessionAccept, request, offer, accept, ready, Codec,
  Handshake,
}
use nostmesh.Session.Start.{H, is_initiator, is_responder, is_state}
use nostmesh.Session.Checks.{check_alive, digest, record_seq, bind_peer_tunnel_key}

unfoldable pub local_capabilities : Capabilities
local_capabilities = record {
  protocol_versions = pos 1 ∷ [];
  transports = "wireguard/udp" ∷ [];
  candidate_types = "host" ∷ "static" ∷ [];
  extensions = [];
}

-- The guards on the role and on the state, in the order of the source.
abbrev pub expect : (Role → Bool) → State → H (Unit {0})
expect is_role s = do
  require (λ h. is_role h.role) unexpected_message
  require (λ h. is_state h.state s) unexpected_message

abbrev pub move : State → ℕ → H (Unit {0})
move s now = modify (λ h. record h { state = s; updated_at = now })

abbrev pub authorize : Option (NostrKey → Bool) → H (Unit {0})
authorize none = pure tt
authorize (some allows) = require (λ h. allows h.peer_key) unauthorized

module _ (codec : Codec) where
  unfoldable pub local_tunnel_key : String → ℤ → ℕ → Handshake → TunnelKey
  local_tunnel_key nonce lifetime now h = record {
    public_key = codec.encode h.local_tunnel_public;
    nonce = nonce;
    expires_at = to_unix (add_duration now lifetime);
  }

  unfoldable pub build_request : String → ℤ → ℕ → H SessionRequest
  unfolding local_capabilities local_tunnel_key
  build_request nonce lifetime now = do
    check_alive now
    expect is_initiator idle
    key ← get (local_tunnel_key nonce lifetime now)
    move request_sent now
    pure (record { capabilities = local_capabilities; tunnel_key = key; overlay_address = "" })

  unfoldable pub receive_request : SessionRequest → ℕ → Option (NostrKey → Bool) → ℕ → H (Unit {0})
  receive_request message seq authorizer now = do
    check_alive now
    expect is_responder idle
    authorize authorizer
    record_seq codec seq (request message)
    bind_peer_tunnel_key codec message.tunnel_key now
    move request_received now

  -- `HashOffer`.
  unfoldable pub hash_offer : SessionOffer → H String
  hash_offer message h = elim (digest codec (offer message)) [
    | none ↦ err encoding h
    | some hash ↦ ok hash h
  ]

  abbrev pub keep_hash : String → H (Unit {0})
  keep_hash hash = modify (λ h. record h { offer_hash = hash })

  unfoldable pub offer_of : TunnelKey → SessionOffer
  unfolding local_capabilities
  offer_of key = record {
    capabilities = local_capabilities;
    tunnel_key = key;
    overlay_address = "";
    agreed_version = pos 1;
    agreed_transports = "wireguard/udp" ∷ [];
  }

  unfoldable pub build_offer : String → ℤ → ℕ → H (SessionOffer × String)
  unfolding local_tunnel_key offer_of hash_offer
  build_offer nonce lifetime now = do
    check_alive now
    expect is_responder request_received
    key ← get (local_tunnel_key nonce lifetime now)
    hash ← hash_offer (offer_of key)
    keep_hash hash
    move offer_sent now
    pure (offer_of key, hash)

  unfoldable pub receive_offer : SessionOffer → ℕ → ℕ → H (Unit {0})
  unfolding hash_offer
  receive_offer message seq now = do
    check_alive now
    expect is_initiator request_sent
    record_seq codec seq (offer message)
    bind_peer_tunnel_key codec message.tunnel_key now
    hash ← hash_offer message
    keep_hash hash
    move offer_received now

  unfoldable pub receive_accept : SessionAccept → ℕ → ℕ → H (Unit {0})
  receive_accept message seq now = do
    check_alive now
    expect is_responder offer_sent
    record_seq codec seq (accept message)
    require (λ h. message.offer_hash == h.offer_hash) offer_mismatch
    move connecting now

  unfoldable pub receive_ready : ℕ → ℕ → H (Unit {0})
  receive_ready seq now = do
    check_alive now
    require (λ h. is_state h.state connecting || is_state h.state established) unexpected_message
    record_seq codec seq ready

unfoldable pub build_accept : ℕ → H SessionAccept
build_accept now = do
  check_alive now
  expect is_initiator offer_received
  hash ← get (λ h. h.offer_hash)
  move connecting now
  pure (record { offer_hash = hash })

unfoldable pub confirm_established : ℕ → H (Unit {0})
confirm_established now = do
  check_alive now
  require (λ h. is_state h.state connecting) unexpected_message
  move established now
