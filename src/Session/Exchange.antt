-- ===== src/Session/Exchange.antt =====
-- An exchange of messages between two nodes, and that it succeeds.
use nostmesh.Base.{
  Option-cases, inl, inr, ℕ, ◌≤◌, pos, String, ◌≡◌, true, false, arith, refl, [], ◌∷◌, Option, none,
  some, string_eq, ℕ_eq, is_some,
}
use nostmesh.Base.Time.{second}
use nostmesh.Session.Binding.{bound_key}
use nostmesh.Base.Outcome.{ok, err}
use nostmesh.Session.Types.{
  Handshake, Codec, initiator, responder, request_sent, request_received, offer_sent,
  offer_received, connecting, SessionRequest, SessionOffer, SessionAccept, Content, request, offer,
  accept,
}
use nostmesh.Session.Start.{is_expired, bytes_eq}
use nostmesh.Session.Checks.{digest}
use nostmesh.Session.Transitions.{
  local_tunnel_key, offer_of, build_request, receive_request, build_offer, receive_offer,
  build_accept, receive_accept,
}
use nostmesh.Session.Steps.{
  Ready, still_in_time, tunnel_key_of, asking, build_request-ok, receive_request-ok, build_offer-ok,
  receive_offer-ok, build_accept-ok, receive_accept-ok,
}

module _ (codec : Codec) (life now : ℕ) where
  -- Alice asks, bob offers, alice accepts: the messages reach the other node at once, under the
  -- numbers 0 and 1 of their sender. none where an operation refuses.
  unfoldable pub exchange : String → String → Handshake → Handshake → Option (Handshake × Handshake)
  exchange nonce nonce' alice bob = elim (build_request codec nonce (pos life) now alice) [
    | err _ _ ↦ none
    | ok m a ↦ elim (receive_request codec m 0 none now bob) [
      | err _ _ ↦ none
      | ok _ b ↦ elim (build_offer codec nonce' (pos life) now b) [
        | err _ _ ↦ none
        | ok (o, hash) b' ↦ elim (receive_offer codec o 0 now a) [
          | err _ _ ↦ none
          | ok _ a' ↦ elim (build_accept now a') [
            | err _ _ ↦ none
            | ok reply a'' ↦ elim (receive_accept codec reply 1 now b') [
              | err _ _ ↦ none
              | ok _ b'' ↦ some (a'', b'')
            ]
          ]
        ]
      ]
    ]
  ]

  -- Six steps that succeed make an exchange.
  exchange-steps :
      (nonce nonce' : String) (alice bob a a' a'' b b' b'' : Handshake) (m : SessionRequest)
      (o : SessionOffer) (hash : String) (reply : SessionAccept)
      → build_request codec nonce (pos life) now alice ≡ ok m a
      → receive_request codec m 0 none now bob ≡ ok tt b
      → build_offer codec nonce' (pos life) now b ≡ ok (o, hash) b'
      → receive_offer codec o 0 now a ≡ ok tt a'
      → build_accept now a' ≡ ok reply a''
      → receive_accept codec reply 1 now b' ≡ ok tt b''
      → exchange nonce nonce' alice bob ≡ some (a'', b'')
  unfolding exchange
  exchange-steps nonce nonce' alice bob a a' a'' b b' b'' m o hash reply e1 e2 e3 e4 e5 e6 =
      ground arith

  -- What the exchange reaches: both nodes connect, with the digest of one offer, and each has bound
  -- the key that the other one sent.
  pub record Connected (alice bob : Handshake) (ends : Handshake × Handshake) : Type 0 where
    pub alice_connecting : ends.0.state ≡ connecting
    pub bob_connecting : ends.1.state ≡ connecting
    pub same_offer : ends.0.offer_hash ≡ ends.1.offer_hash
    pub alice_bound : bound_key ends.0 ≡ some (codec.encode bob.local_tunnel_public)
    pub bob_bound : bound_key ends.1 ≡ some (codec.encode alice.local_tunnel_public)

  digest-written :
      (c : Content)
      → ((x : Content) → is_some (codec.marshal x) ≡ true)
      → (d : String) × (digest codec c ≡ some d)
  unfolding digest
  digest-written c w = elim (Option-cases (codec.marshal c)) [
    | inl e ↦ absurd (ground (arith, w c))
    | inr (text, e) ↦ (codec.sha256_hex text, ground arith)
  ]

  -- An initiator and a responder that are new, whose time has not run out, with tunnel keys that
  -- differ and that their texts give back, connect by one exchange of messages, where keys live for
  -- a second or longer and every message can be written as text.
  pub exchange-Connected :
      (nonce nonce' : String) (alice bob : Handshake)
      → second ≤ life
      → ((c : Content) → is_some (codec.marshal c) ≡ true)
      → Ready codec life now alice
      → Ready codec life now bob
      → alice.role ≡ initiator
      → bob.role ≡ responder
      → bytes_eq alice.local_tunnel_public bob.local_tunnel_public ≡ false
      → bytes_eq bob.local_tunnel_public alice.local_tunnel_public ≡ false
      → (ends : Handshake × Handshake) × (exchange nonce nonce' alice bob ≡ some ends)
        × Connected alice bob ends
  unfolding local_tunnel_key offer_of
  exchange-Connected nonce nonce' alice bob l w va vb ra rb nab nba =
      let m = asking codec life now nonce alice in
      let o = offer_of codec (tunnel_key_of codec life now nonce' bob) in
      let (d, gd) = digest-written (request m) w in
      let (hash, gh) = digest-written (offer o) w in
      let (c, gc) = digest-written (accept (record { offer_hash = hash })) w in
      let a = record alice { state = request_sent; updated_at = now } in
      let b = record bob {
        state = request_received;
        updated_at = now;
        peer_tunnel = some m.tunnel_key;
        seen_seq = (0, d) ∷ [];
      } in
      let b' = record b { state = offer_sent; updated_at = now; offer_hash = hash } in
      let a' = record a {
        state = offer_received;
        updated_at = now;
        peer_tunnel = some o.tunnel_key;
        seen_seq = (0, hash) ∷ [];
        offer_hash = hash;
      } in
      let a'' = record a' { state = connecting; updated_at = now } in
      let b'' = record b' {
        state = connecting;
        updated_at = now;
        seen_seq = (0, d) ∷ (1, c) ∷ [];
      } in
      let in_time_a : is_expired a now ≡ false =
        still_in_time codec life now alice a va.in_time refl in
      let in_time_b : is_expired b now ≡ false =
        still_in_time codec life now bob b vb.in_time refl in
      let e1 = build_request-ok codec life now nonce alice va ra in
      let e2 = receive_request-ok codec life now m bob alice d l vb va rb gd refl refl nab in
      let e3 = build_offer-ok codec life now nonce' hash b rb refl in_time_b gh in
      let e4 =
        receive_offer-ok codec life now o a bob hash l vb ra refl in_time_a va.nothing_seen
          va.unbound gh refl refl nba in
      let e5 =
        build_accept-ok codec life now a' ra refl
          (still_in_time codec life now alice a' va.in_time refl) in
      let e6 =
        receive_accept-ok codec life now b' d c hash rb refl
          (still_in_time codec life now bob b' vb.in_time refl) refl refl gc in
      (
        (a'', b''),
        exchange-steps nonce nonce' alice bob a a' a'' b b' b'' m o hash
            (record { offer_hash = hash }) e1 e2 e3 e4 e5 e6,
        record {
          alice_connecting = refl;
          bob_connecting = refl;
          same_offer = refl;
          alice_bound = refl;
          bob_bound = refl;
        },
      )
