-- ===== src/Session/Terms.antt =====
-- The terms of an offer are pinned by its hash, and a sequence number by its content.
use nostmesh.Base.{
  ℕ, String, ◌≡◌, Bool, true, false, arith, List, [], ◌∷◌, some, string_eq, ℕ_eq, ℤ,
}
use nostmesh.Base.Outcome.{ok, final}
use nostmesh.Session.Types.{
  Handshake, Codec, State, responder, idle, request_received, SessionOffer, SessionAccept, offer,
}
use nostmesh.Session.Start.{fail, close}
use nostmesh.Session.Checks.{check_alive, record_seq, bind_peer_tunnel_key, digest}
use nostmesh.Session.Transitions.{
  build_request, receive_request, build_offer, receive_offer, build_accept, receive_accept,
  receive_ready, confirm_established, hash_offer,
}
use nostmesh.Session.Events.{
  Event, attempt, send_request, Input, event, failing, closing, apply, run,
}

abbrev has_offered : State → Bool
has_offered idle = false
has_offered request_received = false
has_offered _ = true

-- A responder that has made an offer with this hash.
record Offered (hash : String) (h : Handshake) : Type 0 where
  responds : h.role ≡ responder
  past : has_offered h.state ≡ true
  pinned : h.offer_hash ≡ hash

module _ (codec : Codec) where
  attempt-Offered :
      (hash : String) (e : Event) (now : ℕ) (h : Handshake)
      → Offered hash h
      → Offered hash (final (attempt codec e now h))
  unfolding attempt build_request receive_request build_offer receive_offer build_accept
      receive_accept receive_ready confirm_established check_alive record_seq bind_peer_tunnel_key
      hash_offer
  attempt-Offered hash (send_request nonce life) now h v = ground arith
  attempt-Offered hash _ now h v = ground arith

  apply-Offered :
      (hash : String) (i : Input) (h : Handshake) → Offered hash h → Offered hash (apply codec i h)
  unfolding apply fail close
  apply-Offered hash (event now e) h v = attempt-Offered hash e now h v
  apply-Offered hash (failing now r) h v = ground arith
  apply-Offered hash (closing now) h v = ground arith

  run-Offered :
      (hash : String) (is : List Input) (h : Handshake)
      → Offered hash h
      → Offered hash (run codec is h)
  unfolding run
  run-Offered hash [] h v = v
  run-Offered hash (i ∷ is) h v = run-Offered hash is (apply codec i h) (apply-Offered hash i h v)

  build_offer-Offered :
      (nonce : String) (life : ℤ) (now : ℕ) (h k : Handshake) (o : SessionOffer) (hash : String)
      → build_offer codec nonce life now h ≡ ok (o, hash) k
      → Offered hash k × (digest codec (offer o) ≡ some hash)
  unfolding build_offer check_alive
  build_offer-Offered nonce life now h k o hash p = ground arith

  receive_accept-hash :
      (m : SessionAccept) (seq now : ℕ) (h k : Handshake)
      → receive_accept codec m seq now h ≡ ok tt k
      → m.offer_hash ≡ h.offer_hash
  unfolding receive_accept check_alive record_seq
  receive_accept-hash m seq now h k p = ground (arith, string_eq.beq_iff m.offer_hash h.offer_hash)

  -- An acceptance that a responder takes, at any time after its offer and whatever came between,
  -- carries the digest of the very offer that it made.
  pub receive_accept-build_offer :
      (nonce : String) (life : ℤ) (now : ℕ) (h k : Handshake) (o : SessionOffer) (hash : String)
      (is : List Input) (m : SessionAccept) (seq later : ℕ) (end : Handshake)
      → build_offer codec nonce life now h ≡ ok (o, hash) k
      → receive_accept codec m seq later (run codec is k) ≡ ok tt end
      → digest codec (offer o) ≡ some m.offer_hash
  receive_accept-build_offer nonce life now h k o hash is m seq later end p q =
      let (v, d) = build_offer-Offered nonce life now h k o hash p in
      let e = receive_accept-hash m seq later (run codec is k) end q in
      rw (e, (run-Offered hash is k v).pinned) d
