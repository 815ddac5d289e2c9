-- ===== src/Probe/Laws.antt =====
-- Probes have the size of probes, and are parsed into their parts.
use nostmesh.Base.{
  ℕ, ◌≡◌, ◌⊎◌, refl, true, false, not, ◌&&◌, List, ◌∷◌, ◌++◌, length, length-append, take, drop,
  take-append, drop-append, subst, nat_eq, nat_eq_iff, arith,
}
use nostmesh.Base.Outcome.{value}
use nostmesh.Net.{AddrPort, unmap}
use nostmesh.Wireguard.Port.{zeros}
use nostmesh.Probe.Bytes.{big_endian, length-big_endian, to_uint64, unix_nano, as_16}
use nostmesh.Probe.Wire.{
  parse_kind, parse_probe, challenge_body, response_body, authenticate, encode,
}

-- A part that is taken off by its size.
pub take_part : (xs ys : List ℕ) (n : ℕ) → length xs ≡ n → take n (xs ++ ys) ≡ xs
take_part xs ys n h = subst (λ k. take k (xs ++ ys) ≡ xs) h (take-append xs ys)

pub drop_part : (xs ys : List ℕ) (n : ℕ) → length xs ≡ n → drop n (xs ++ ys) ≡ ys
drop_part xs ys n h = subst (λ k. drop k (xs ++ ys) ≡ ys) h (drop-append xs ys)

module _ (hmac : List ℕ → List ℕ → List ℕ) where
  pub parse_probe-encode :
      (kind : ℕ) (nonce body key : List ℕ)
      → ((k m : List ℕ) → length (hmac k m) ≡ 32)
      → (kind ≡ 1) ⊎ (kind ≡ 2)
      → length nonce ≡ 16
      → length body ≡ 26
      → parse_probe (encode hmac kind nonce body key)
        ≡ value (record {
          kind = kind;
          nonce = nonce;
          body = body;
          tag = authenticate hmac key kind nonce body;
        })
  unfolding encode parse_probe parse_kind authenticate
  parse_probe-encode kind nonce body key sized k n b =
      let tag = hmac key (kind ∷ (nonce ++ body)) in
      let whole : length (kind ∷ (nonce ++ (body ++ tag))) ≡ 75 = omega (
        arith,
        length-append nonce (body ++ tag),
        length-append body tag,
        n,
        b,
        sized key (kind ∷ (nonce ++ body)),
      ) in
      let fits : nat_eq (length (kind ∷ (nonce ++ (body ++ tag)))) 75 ≡ true =
        (nat_eq_iff (length (kind ∷ (nonce ++ (body ++ tag)))) 75).1 whole in
      let known : (not (nat_eq kind 1) && not (nat_eq kind 2)) ≡ false = ground (arith, k) in
      rw
        (
          encode,
          parse_probe,
          fits,
          known,
          take_part nonce (body ++ tag) 16 n,
          drop_part nonce (body ++ tag) 16 n,
          take_part body tag 26 b,
          drop_part body tag 26 b,
        )
        refl

pub length-response_body : (at : ℕ) (observed : AddrPort) → length (response_body at observed) ≡ 26
unfolding response_body
length-response_body at observed =
    let moment = big_endian 8 (to_uint64 (unix_nano at)) in
    let address = big_endian 16 (as_16 (unmap observed.addr)) in
    let port = big_endian 2 observed.port in
    omega (
      arith,
      length-append moment (address ++ port),
      length-append address port,
      length-big_endian 8 (to_uint64 (unix_nano at)),
      length-big_endian 16 (as_16 (unmap observed.addr)),
      length-big_endian 2 observed.port,
    )

pub length-challenge_body : (at : ℕ) → length (challenge_body at) ≡ 26
unfolding challenge_body
length-challenge_body at = omega (
  arith,
  length-append (big_endian 8 (to_uint64 (unix_nano at))) (zeros 18),
  length-big_endian 8 (to_uint64 (unix_nano at)),
)
