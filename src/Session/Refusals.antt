-- ===== src/Session/Refusals.antt =====
-- What a refused operation leaves behind.
use nostmesh.Base.{false, ℕ, ◌≡◌, true, arith}
use nostmesh.Base.Outcome.{err}
use nostmesh.Session.Types.{
  unexpected_message, timeout, Handshake, Error, Codec, is_terminal, terminal,
}
use nostmesh.Session.Checks.{parse_key, check_alive, record_seq, bind_peer_tunnel_key}
use nostmesh.Session.Start.{is_expired}
use nostmesh.Session.Transitions.{
  build_request, receive_request, build_offer, receive_offer, build_accept, receive_accept,
  receive_ready, confirm_established, hash_offer,
}
use nostmesh.Session.Events.{Event, attempt, send_request, get_request, get_offer}

-- The two handshakes may differ in the sequence numbers seen, and in nothing else.
abbrev pub SameButSeen : Handshake → Handshake → Type 0
SameButSeen h k = record k { seen_seq = h.seen_seq } ≡ h

module _ (codec : Codec) where
  -- A closed or failed handshake refuses every message and every step of its own with the error of
  -- a finished handshake, and nothing in it changes.
  pub terminal_refuses :
      (e : Event) (now : ℕ) (h : Handshake)
      → is_terminal h.state ≡ true
      → attempt codec e now h ≡ err terminal h
  unfolding attempt build_request receive_request build_offer receive_offer build_accept
      receive_accept receive_ready confirm_established check_alive
  terminal_refuses (send_request nonce life) now h t = ground arith
  terminal_refuses (get_request m seq auth) now h t = ground arith
  terminal_refuses _ now h t = ground arith

  -- An event that fails changes nothing in the handshake but the sequence numbers that it has seen.
  pub attempt-SameButSeen :
      (e : Event) (now : ℕ) (h k : Handshake) (x : Error)
      → attempt codec e now h ≡ err x k
      → SameButSeen h k
  unfolding attempt build_request receive_request build_offer receive_offer build_accept
      receive_accept receive_ready confirm_established check_alive record_seq bind_peer_tunnel_key
      hash_offer
  attempt-SameButSeen (send_request nonce life) now h k x t = ground arith
  attempt-SameButSeen (get_request m seq auth) now h k x t = ground arith
  attempt-SameButSeen (get_offer m seq) now h k x t = ground arith
  attempt-SameButSeen _ now h k x t = ground arith

  -- An event that is refused as an unexpected message leaves the handshake exactly as it was.
  pub attempt-unexpected :
      (e : Event) (now : ℕ) (h k : Handshake)
      → attempt codec e now h ≡ err unexpected_message k
      → k ≡ h
  unfolding attempt build_request receive_request build_offer receive_offer build_accept
      receive_accept receive_ready confirm_established check_alive record_seq bind_peer_tunnel_key
      hash_offer parse_key
  attempt-unexpected (send_request nonce life) now h k t = ground arith
  attempt-unexpected (get_request m seq auth) now h k t = ground arith
  attempt-unexpected (get_offer m seq) now h k t = ground arith
  attempt-unexpected _ now h k t = ground arith

  -- An expired handshake that has not ended refuses every event with the error of a timeout, and
  -- nothing in it changes.
  pub expired_refuses :
      (e : Event) (now : ℕ) (h : Handshake)
      → is_terminal h.state ≡ false
      → is_expired h now ≡ true
      → attempt codec e now h ≡ err timeout h
  unfolding attempt build_request receive_request build_offer receive_offer build_accept
      receive_accept receive_ready confirm_established check_alive
  expired_refuses (send_request nonce life) now h t x = ground arith
  expired_refuses (get_request m seq auth) now h t x = ground arith
  expired_refuses _ now h t x = ground arith
