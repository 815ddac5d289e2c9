-- ===== src/Session/Binding.antt =====
-- The peer's tunnel key and the terms of the offer, once they are fixed.
use nostmesh.Base.{
  ℕ, String, ◌≡◌, Bool, true, false, not, arith, inl, inr, List, [], ◌∷◌, Option, none, some,
  is_some, string_eq, Option-cases,
}
use nostmesh.Base.Outcome.{final}
use nostmesh.Session.Types.{
  Handshake, Codec, Role, State, initiator, responder, idle, request_sent, request_received,
  offer_sent, offer_received, closed, failed, TunnelKey, WireGuardKey, Options,
}
use nostmesh.Session.Start.{fail, close, bytes_eq, new}
use nostmesh.Session.Checks.{check_alive, record_seq, bind_peer_tunnel_key, parse_key}
use nostmesh.Session.Transitions.{
  build_request, receive_request, build_offer, receive_offer, build_accept, receive_accept,
  receive_ready, confirm_established, hash_offer,
}
use nostmesh.Session.Events.{
  Event, attempt, send_request, get_request, get_offer, Input, event, failing, closing, apply, run,
}
use nostmesh.Base.Outcome.{value, error}

-- The public key that is bound, if one is.
abbrev pub bound_key : Handshake → Option String
bound_key h = elim h.peer_tunnel [ none ↦ none | some key ↦ some key.public_key ]

-- The states that a node reaches only with the peer's key bound.
abbrev pub needs_key : State → Bool
needs_key idle = false
needs_key request_sent = false
needs_key closed = false
needs_key failed = false
needs_key _ = true

-- The states that the other role owns.
abbrev pub belongs : Role → State → Bool
belongs initiator request_received = false
belongs initiator offer_sent = false
belongs responder request_sent = false
belongs responder offer_received = false
belongs _ _ = true

module _ (codec : Codec) where
  -- The key parses, and is not this node's own.
  abbrev pub is_foreign : WireGuardKey → Option TunnelKey → Bool
  is_foreign own none = true
  is_foreign own (some key) = elim (parse_key codec key.public_key) [
    | error e ↦ false
    | value parsed ↦ not (bytes_eq parsed own)
  ]

  pub record Inv (h : Handshake) : Type 0 where
    pub role_state : belongs h.role h.state ≡ true
    pub key_bound : needs_key h.state ≡ true → is_some h.peer_tunnel ≡ true
    pub key_foreign : is_foreign h.local_tunnel_public h.peer_tunnel ≡ true

  pub attempt-Inv :
      (e : Event) (now : ℕ) (h : Handshake) → Inv h → Inv (final (attempt codec e now h))
  unfolding attempt build_request receive_request build_offer receive_offer build_accept
      receive_accept receive_ready confirm_established check_alive record_seq bind_peer_tunnel_key
      hash_offer
  attempt-Inv (send_request nonce life) now h v = ground arith
  attempt-Inv (get_request m seq auth) now h v = ground arith
  attempt-Inv (get_offer m seq) now h v = ground arith
  attempt-Inv _ now h v = ground arith

  -- Whatever an attempt does, a key that is bound stays the same.
  pub attempt-bound_key :
      (e : Event) (now : ℕ) (h : Handshake) (key : TunnelKey)
      → h.peer_tunnel ≡ some key
      → bound_key (final (attempt codec e now h)) ≡ some key.public_key
  unfolding attempt build_request receive_request build_offer receive_offer build_accept
      receive_accept receive_ready confirm_established check_alive record_seq bind_peer_tunnel_key
      hash_offer
  attempt-bound_key (send_request nonce life) now h key b = ground arith
  attempt-bound_key (get_request m seq auth) now h key b =
      ground (arith, string_eq.beq_iff key.public_key m.tunnel_key.public_key)
  attempt-bound_key (get_offer m seq) now h key b =
      ground (arith, string_eq.beq_iff key.public_key m.tunnel_key.public_key)
  attempt-bound_key _ now h key b = ground arith

  pub apply-Inv : (i : Input) (h : Handshake) → Inv h → Inv (apply codec i h)
  unfolding apply fail close
  apply-Inv (event now e) h v = attempt-Inv e now h v
  apply-Inv (failing now r) h v = ground arith
  apply-Inv (closing now) h v = ground arith

  run-Inv : (is : List Input) (h : Handshake) → Inv h → Inv (run codec is h)
  unfolding run
  run-Inv [] h v = v
  run-Inv (i ∷ is) h v = run-Inv is (apply codec i h) (apply-Inv i h v)

  pub new-Inv : (o : Options) (h : Handshake) → new o ≡ value h → Inv h
  unfolding new
  new-Inv o h p = ground arith

  -- Whatever happens to a new handshake, it is only in states of its role; past the first message
  -- of the peer, unless it has ended, the peer's tunnel key is bound; and a key that is bound parses
  -- and is not the node's own.
  pub run-new-Inv :
      (o : Options) (h : Handshake) (is : List Input) → new o ≡ value h → Inv (run codec is h)
  run-new-Inv o h is p = run-Inv is h (new-Inv o h p)

  bound-peer_tunnel :
      (h : Handshake) (text : String)
      → bound_key h ≡ some text
      → (key : TunnelKey) × (h.peer_tunnel ≡ some key) × (key.public_key ≡ text)
  bound-peer_tunnel h text b = elim (Option-cases h.peer_tunnel) [
    | inl e ↦ absurd (ground arith)
    | inr (key, e) ↦ (key, e, ground arith)
  ]

  apply-bound_key :
      (i : Input) (h : Handshake) (text : String)
      → bound_key h ≡ some text
      → bound_key (apply codec i h) ≡ some text
  unfolding apply fail close
  apply-bound_key (event now e) h text b =
      let (key, p, q) = bound-peer_tunnel h text b in rw (← q) (attempt-bound_key e now h key p)
  apply-bound_key (failing now r) h text b = b
  apply-bound_key (closing now) h text b = b

  -- Once the peer's tunnel key is bound, no sequence of messages, failures and closings replaces it.
  pub run-bound_key :
      (is : List Input) (h : Handshake) (text : String)
      → bound_key h ≡ some text
      → bound_key (run codec is h) ≡ some text
  unfolding run
  run-bound_key [] h text b = b
  run-bound_key (i ∷ is) h text b =
      run-bound_key is (apply codec i h) text (apply-bound_key i h text b)
