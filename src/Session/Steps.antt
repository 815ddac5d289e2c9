-- ===== src/Session/Steps.antt =====
-- Each operation of an exchange succeeds where it should.
use nostmesh.Base.{
  ℕ, ◌≤◌, ◌<◌, ◌+◌, ◌*◌, ◌/◌, pos, String, ◌≡◌, false, arith, [], ◌∷◌, none, some, string_eq, ℕ_eq,
}
use nostmesh.Base.Time.{second, add_duration, to_unix, from_unix}
use nostmesh.Base.Outcome.{value, ok}
use nostmesh.Session.Types.{
  Handshake, Codec, initiator, responder, idle, request_sent, request_received, offer_sent,
  offer_received, connecting, TunnelKey, SessionRequest, SessionOffer, request, offer, accept,
}
use nostmesh.Session.Start.{is_expired, bytes_eq, all_zero}
use nostmesh.Session.Checks.{
  check_alive, record_seq, bind_peer_tunnel_key, digest, parse_key, is_other_key, key_is_expired,
}
use nostmesh.Session.Transitions.{
  local_tunnel_key, local_capabilities, offer_of, build_request, receive_request, build_offer,
  receive_offer, build_accept, receive_accept, hash_offer,
}

-- A key that lives for a second or longer has not expired when it is made, though its end is cut to
-- whole seconds.
from_unix-to_unix : (t : ℕ) → from_unix (to_unix t) ≡ t / second * second
from_unix-to_unix t = ground arith

key_is_expired-fresh :
    (key : TunnelKey) (now life : ℕ)
    → second ≤ life
    → key.expires_at ≡ to_unix (add_duration now (pos life))
    → key_is_expired key now ≡ false
unfolding key_is_expired
key_is_expired-fresh key now life h e =
    let whole = from_unix-to_unix (now + life) in
    let later : now < (now + life) / second * second = omega arith in ground (arith, whole, later)

module _ (codec : Codec) (life now : ℕ) where
  -- A new node of a session whose time has not run out, with a tunnel key that its text gives back.
  pub record Ready (h : Handshake) : Type 0 where
    pub at_start : h.state ≡ idle
    pub in_time : is_expired h now ≡ false
    pub unbound : h.peer_tunnel ≡ none
    pub nothing_seen : h.seen_seq ≡ []
    pub own_key : parse_key codec (codec.encode h.local_tunnel_public) ≡ value h.local_tunnel_public
    pub nonzero : all_zero h.local_tunnel_public ≡ false

  pub still_in_time :
      (h k : Handshake)
      → is_expired h now ≡ false
      → k.deadline ≡ h.deadline
      → is_expired k now ≡ false
  unfolding is_expired
  still_in_time h k v e = ground arith

  abbrev pub tunnel_key_of : String → Handshake → TunnelKey
  tunnel_key_of nonce h = local_tunnel_key codec nonce (pos life) now h

  abbrev pub asking : String → Handshake → SessionRequest
  asking nonce h = record {
    capabilities = local_capabilities;
    tunnel_key = tunnel_key_of nonce h;
    overlay_address = "";
  }

  pub build_request-ok :
      (nonce : String) (h : Handshake)
      → Ready h
      → h.role ≡ initiator
      → build_request codec nonce (pos life) now h
        ≡ ok (asking nonce h) (record h { state = request_sent; updated_at = now })
  unfolding build_request check_alive
  build_request-ok nonce h v r = ground (arith, v.at_start, v.in_time)

  -- The key of another node is bound.
  pub bind-ok :
      (key : TunnelKey) (h k : Handshake)
      → second ≤ life
      → Ready k
      → key.public_key ≡ codec.encode k.local_tunnel_public
      → key.expires_at ≡ to_unix (add_duration now (pos life))
      → h.peer_tunnel ≡ none
      → bytes_eq k.local_tunnel_public h.local_tunnel_public ≡ false
      → bind_peer_tunnel_key codec key now h ≡ ok tt (record h { peer_tunnel = some key })
  unfolding bind_peer_tunnel_key is_other_key
  bind-ok key h k l v p e n d =
      ground (arith, v.own_key, v.nonzero, key_is_expired-fresh key now life l e)

  pub receive_request-ok :
      (m : SessionRequest) (h k : Handshake) (d : String)
      → second ≤ life
      → Ready h
      → Ready k
      → h.role ≡ responder
      → digest codec (request m) ≡ some d
      → m.tunnel_key.public_key ≡ codec.encode k.local_tunnel_public
      → m.tunnel_key.expires_at ≡ to_unix (add_duration now (pos life))
      → bytes_eq k.local_tunnel_public h.local_tunnel_public ≡ false
      → receive_request codec m 0 none now h
        ≡ ok tt (record h {
          state = request_received;
          updated_at = now;
          peer_tunnel = some m.tunnel_key;
          seen_seq = (0, d) ∷ [];
        })
  unfolding receive_request check_alive record_seq
  receive_request-ok m h k d l v w r g p e n =
      let bound =
        bind-ok m.tunnel_key (record h { seen_seq = (0, d) ∷ [] }) k l w p e v.unbound n in
      ground (arith, v.at_start, v.in_time, v.nothing_seen, bound)

  pub build_offer-ok :
      (nonce hash : String) (h : Handshake)
      → h.role ≡ responder
      → h.state ≡ request_received
      → is_expired h now ≡ false
      → digest codec (offer (offer_of codec (tunnel_key_of nonce h))) ≡ some hash
      → build_offer codec nonce (pos life) now h
        ≡ ok
            (offer_of codec (tunnel_key_of nonce h), hash)
            (record h { state = offer_sent; updated_at = now; offer_hash = hash })
  unfolding build_offer check_alive hash_offer
  build_offer-ok nonce hash h r s t g = ground (arith, r, s, t, g)

  pub receive_offer-ok :
      (m : SessionOffer) (h k : Handshake) (hash : String)
      → second ≤ life
      → Ready k
      → h.role ≡ initiator
      → h.state ≡ request_sent
      → is_expired h now ≡ false
      → h.seen_seq ≡ []
      → h.peer_tunnel ≡ none
      → digest codec (offer m) ≡ some hash
      → m.tunnel_key.public_key ≡ codec.encode k.local_tunnel_public
      → m.tunnel_key.expires_at ≡ to_unix (add_duration now (pos life))
      → bytes_eq k.local_tunnel_public h.local_tunnel_public ≡ false
      → receive_offer codec m 0 now h
        ≡ ok tt (record h {
          state = offer_received;
          updated_at = now;
          peer_tunnel = some m.tunnel_key;
          seen_seq = (0, hash) ∷ [];
          offer_hash = hash;
        })
  unfolding receive_offer check_alive record_seq hash_offer
  receive_offer-ok m h k hash l w r s t seen un g p e n =
      let bound = bind-ok m.tunnel_key (record h { seen_seq = (0, hash) ∷ [] }) k l w p e un n in
      ground (arith, bound)

  pub build_accept-ok :
      (h : Handshake)
      → h.role ≡ initiator
      → h.state ≡ offer_received
      → is_expired h now ≡ false
      → build_accept now h
        ≡ ok
            (record { offer_hash = h.offer_hash })
            (record h { state = connecting; updated_at = now })
  unfolding build_accept check_alive
  build_accept-ok h r s t = ground arith

  pub receive_accept-ok :
      (h : Handshake) (first d hash : String)
      → h.role ≡ responder
      → h.state ≡ offer_sent
      → is_expired h now ≡ false
      → h.seen_seq ≡ (0, first) ∷ []
      → h.offer_hash ≡ hash
      → digest codec (accept (record { offer_hash = hash })) ≡ some d
      → receive_accept codec (record { offer_hash = hash }) 1 now h
        ≡ ok tt
            (record h { state = connecting; updated_at = now; seen_seq = (0, first) ∷ (1, d) ∷ [] })
  unfolding receive_accept check_alive record_seq
  receive_accept-ok h first d hash r s t seen o g =
      ground (arith, string_eq.beq_iff hash h.offer_hash)
