-- ===== src/Probe/Trip.antt =====
-- A probe is read as it was written.
use nostmesh.Base.{
  ℕ, suc, zero, ◌+◌, ◌*◌, ◌/◌, ◌%◌, ◌^◌, ◌<◌, ◌≡◌, ◌⊎◌, inl, inr, refl, sym, ap, ◌∙◌, subst, true,
  false, List, [], ◌∷◌, ◌++◌, length, length-append, take, drop, nat_eq, nat_eq_iff, Bool-cases,
  arith,
}
use mathlib.Core.List.{append_assoc}
use nostmesh.Base.Outcome.{value}
use nostmesh.Net.{Addr, AddrPort, v4, v6, unmap}
use nostmesh.Wireguard.Port.{zeros}
use nostmesh.Session.Bytes.{bytes_eq_refl}
use nostmesh.Probe.Bytes.{
  big_endian, length-big_endian, read_bytes, read_bytes-big_endian, unix_nano, from_nano, to_uint64,
  to_int64, as_16, Telling, instant_returns,
}
use nostmesh.Probe.Wire.{
  Challenge, DecodedProbe, decoded, parse_probe, challenge_body, response_body, authenticate,
  encode, encode_challenge, encode_response, verify, decode_challenge, decode_response,
  verify_response,
}
use nostmesh.Probe.Laws.{
  take_part, drop_part, parse_probe-encode, length-response_body, length-challenge_body,
}

-- An address of one of the two families, within its width.
pub record IsAddr (a : Addr) : Type 0 where
  pub family : (a.family ≡ v4) ⊎ (a.family ≡ v6)
  pub narrow : a.family ≡ v4 → a.value < 2 ^ 32
  pub wide : a.value < 2 ^ 128

-- The sixteen bytes of an address, and the address that they give.
Returns : Addr → Type 0
Returns a =
    (as_16 (unmap a) < 2 ^ 128)
    × (unmap (record { family = v6; value = as_16 (unmap a) }) ≡ unmap a)

v4-Returns : (v : ℕ) → v < 2 ^ 32 → Returns (record { family = v4; value = v })
unfolding Returns as_16
v4-Returns v h =
    let mapped : nat_eq ((65_535 * 2 ^ 32 + v) / 2 ^ 32) 65_535 ≡ true = ground (arith, h) in
    let low : (65_535 * 2 ^ 32 + v) % 2 ^ 32 ≡ v = omega arith in
    (omega arith, rw (mapped, low) refl)

v6-Returns : (v : ℕ) → v < 2 ^ 128 → Returns (record { family = v6; value = v })
unfolding Returns as_16
v6-Returns v h = elim (Bool-cases (nat_eq (v / 2 ^ 32) 65_535)) [
  | inl m ↦ rw m (v4-Returns (v % 2 ^ 32) (omega arith))
  | inr m ↦ rw m (h, rw m refl)
]

unmap-Returns : (a : Addr) → IsAddr a → Returns a
unmap-Returns a i = elim i.family [
  | inl f ↦
      subst (λ k. Returns (record { family = k; value = a.value })) (sym f)
        (v4-Returns a.value (i.narrow f))
  | inr f ↦
      subst (λ k. Returns (record { family = k; value = a.value })) (sym f)
        (v6-Returns a.value i.wide)
]

to_uint64_fits : (t : ℕ) → to_uint64 (unix_nano t) < 2 ^ 64
unfolding to_uint64 unix_nano
to_uint64_fits t = ground arith

module _ (at : ℕ) (in_range : Telling at) where
  -- A body that begins with the instant gives it back.
  moment_returns :
      (rest : List ℕ)
      → from_nano
          (to_int64 (read_bytes 0 (take 8 (big_endian 8 (to_uint64 (unix_nano at)) ++ rest))))
        ≡ at
  moment_returns rest =
      rw
        (
          take_part (big_endian 8 (to_uint64 (unix_nano at))) rest 8
              (length-big_endian 8 (to_uint64 (unix_nano at))),
          read_bytes-big_endian 8 (to_uint64 (unix_nano at)) (to_uint64_fits at),
        )
        (instant_returns at in_range)

take_all : (n : ℕ) (xs : List ℕ) → length xs ≡ n → take n xs ≡ xs
take_all zero [] h = refl
take_all zero (x ∷ xs) h = absurd (omega arith)
take_all (suc n) [] h = refl
take_all (suc n) (x ∷ xs) h = ap (λ l. x ∷ l) (take_all n xs (omega arith))

decoded_response :
    (nonce : List ℕ) (at : ℕ) (observed : AddrPort) (tag : List ℕ)
    → Telling at
    → IsAddr observed.addr
    → observed.port < 2 ^ 16
    → decoded (record { kind = 2; nonce = nonce; body = response_body at observed; tag = tag })
      ≡ record {
        is_response = true;
        nonce = nonce;
        timestamp = at;
        observed = record { addr = unmap observed.addr; port = observed.port };
      }
unfolding decoded response_body Returns
decoded_response nonce at observed tag r a p =
    let (fits, same) = unmap-Returns observed.addr a in
    let moment = big_endian 8 (to_uint64 (unix_nano at)) in
    let address = big_endian 16 (as_16 (unmap observed.addr)) in
    let port = big_endian 2 observed.port in
    let rest =
      drop_part moment (address ++ port) 8 (length-big_endian 8 (to_uint64 (unix_nano at))) in
    let all_but_port : drop 24 (moment ++ (address ++ port)) ≡ port =
      ap (λ l. drop 24 l) (sym (append_assoc moment address port))
      ∙ drop_part (moment ++ address) port 24 (
          omega (
            arith,
            length-append moment address,
            length-big_endian 8 (to_uint64 (unix_nano at)),
            length-big_endian 16 (as_16 (unmap observed.addr)),
          )) in
    let address_read : read_bytes 0 (take 16 (drop 8 (moment ++ (address ++ port))))
        ≡ as_16 (unmap observed.addr) =
      rw (rest, take_part address port 16 (length-big_endian 16 (as_16 (unmap observed.addr))))
        (read_bytes-big_endian 16 (as_16 (unmap observed.addr)) fits) in
    let port_read : read_bytes 0 (take 2 (drop 24 (moment ++ (address ++ port)))) ≡ observed.port =
      rw all_but_port (
        ap (λ l. read_bytes 0 l) (take_all 2 port (length-big_endian 2 observed.port))
        ∙ read_bytes-big_endian 2 observed.port p) in
    rw (moment_returns at r (address ++ port), address_read, port_read, same) refl

module _ (hmac : List ℕ → List ℕ → List ℕ) where
  verify_own :
      (kind : ℕ) (nonce body key : List ℕ)
      → ((k m : List ℕ) → length (hmac k m) ≡ 32)
      → (kind ≡ 1) ⊎ (kind ≡ 2)
      → length nonce ≡ 16
      → length body ≡ 26
      → verify hmac kind key (parse_probe (encode hmac kind nonce body key))
        ≡ value (
            decoded (record {
              kind = kind;
              nonce = nonce;
              body = body;
              tag = authenticate hmac key kind nonce body;
            }))
  unfolding verify
  verify_own kind nonce body key sized k n b =
      rw
        (
          parse_probe-encode hmac kind nonce body key sized k n b,
          (nat_eq_iff kind kind).1 refl,
          bytes_eq_refl (authenticate hmac key kind nonce body),
        )
        refl

  -- A response to a challenge, of sixteen random bytes, is read by its key as a response with the
  -- same bytes and instant, and with the address that was observed, an IPv4 address in its own
  -- form; HMAC has to give 32 bytes, and the instant and the address to be of their sizes.
  pub decode_response-encode_response :
      (nonce : List ℕ) (at : ℕ) (observed : AddrPort) (key : List ℕ)
      → ((k m : List ℕ) → length (hmac k m) ≡ 32)
      → length nonce ≡ 16
      → Telling at
      → IsAddr observed.addr
      → observed.port < 2 ^ 16
      → decode_response hmac (encode_response hmac nonce at observed key) key
        ≡ value (record {
          is_response = true;
          nonce = nonce;
          timestamp = at;
          observed = record { addr = unmap observed.addr; port = observed.port };
        })
  unfolding decode_response encode_response
  decode_response-encode_response nonce at observed key sized n r a p =
      verify_own 2 nonce (response_body at observed) key sized (inr refl) n
        (length-response_body at observed)
      ∙ ap value (
          decoded_response nonce at observed
            (authenticate hmac key 2 nonce (response_body at observed)) r a p)

  -- A challenge of sixteen random bytes is read by its key as a challenge with the same bytes and
  -- instant, and the response to those bytes is read by its key and verified as the answer to it.
  pub verify_response-encode_response :
      (challenge : Challenge) (at : ℕ) (observed : AddrPort) (key : List ℕ)
      → ((k m : List ℕ) → length (hmac k m) ≡ 32)
      → length challenge.nonce ≡ 16
      → Telling challenge.sent_at
      → Telling at
      → IsAddr observed.addr
      → observed.port < 2 ^ 16
      → (got : DecodedProbe) × ((decode_challenge hmac (encode_challenge hmac challenge key) key
            ≡ value got)
          × ((got.is_response ≡ false)
              × ((got.timestamp ≡ challenge.sent_at)
                  × ((answer : DecodedProbe) × ((decode_response hmac
                            (encode_response hmac got.nonce at observed key)
                            key
                          ≡ value answer)
                        × (verify_response challenge answer ≡ value tt))))))
  unfolding decode_challenge encode_challenge verify_response decoded challenge_body
  verify_response-encode_response challenge at observed key sized n sent r a p =
      let got = decoded (record {
        kind = 1;
        nonce = challenge.nonce;
        body = challenge_body challenge.sent_at;
        tag = authenticate hmac key 1 challenge.nonce (challenge_body challenge.sent_at);
      }) in
      let answer : DecodedProbe = record {
        is_response = true;
        nonce = challenge.nonce;
        timestamp = at;
        observed = record { addr = unmap observed.addr; port = observed.port };
      } in
      (
        got,
        (
          verify_own 1 challenge.nonce (challenge_body challenge.sent_at) key sized (inl refl) n
              (length-challenge_body challenge.sent_at),
          (
            refl,
            (
              moment_returns challenge.sent_at sent (zeros 18),
              (
                answer,
                (
                  decode_response-encode_response challenge.nonce at observed key sized n r a p,
                  rw (bytes_eq_refl challenge.nonce) refl,
                ),
              ),
            ),
          ),
        ),
      )
