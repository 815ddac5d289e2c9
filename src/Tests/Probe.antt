-- ===== src/Tests/Probe.antt =====
-- A path is tested: runs of the theorems on probes.
use nostmesh.Base.{ℕ, ◌≡◌, refl, true, false, List, [], ◌∷◌, length, arith, inl, ◌+◌}
use nostmesh.Base.Outcome.{value}
use nostmesh.Net.{AddrPort, v4}
use nostmesh.Wireguard.Port.{zeros}
use nostmesh.Probe.Bytes.{Telling, epoch}
use nostmesh.Probe.Wire.{
  DecodedProbe, Challenge, encode_challenge, encode_response, decode_challenge, decode_response,
  verify_response,
}
use nostmesh.Probe.Trip.{IsAddr, decode_response-encode_response, verify_response-encode_response}
use nostmesh.Probe.Proof.{Written, decode-Written}

-- A tag of 32 bytes that keeps the key's first byte.
abbrev first_of : List ℕ → ℕ
first_of [] = 0
first_of (x ∷ _) = x

abbrev hmac : List ℕ → List ℕ → List ℕ
hmac key message = first_of key ∷ zeros 31

hmac_size : (key message : List ℕ) → length (hmac key message) ≡ 32
hmac_size key message = refl

abbrev nonce : List ℕ
nonce = 1 ∷ 2 ∷ 3 ∷ 4 ∷ zeros 12

abbrev key : List ℕ
key = 9 ∷ []

abbrev seen_at : AddrPort
seen_at = record { addr = record { family = v4; value = 3_232_235_777 }; port = 51820 }

epoch-Telling : Telling (epoch + 5)
epoch-Telling = record { late = omega arith; early = omega arith }

seen_at-IsAddr : IsAddr seen_at.addr
seen_at-IsAddr = record { family = inl refl; narrow = λ f. omega arith; wide = omega arith }

abbrev answer : DecodedProbe
answer = record { is_response = true; nonce = nonce; timestamp = epoch + 5; observed = seen_at }

decode_response-encode_response_example :
    decode_response hmac (encode_response hmac nonce (epoch + 5) seen_at key) key ≡ value answer
decode_response-encode_response_example =
    decode_response-encode_response hmac nonce (epoch + 5) seen_at key hmac_size refl epoch-Telling
      seen_at-IsAddr (omega arith)

abbrev asked : Challenge
asked = record { nonce = nonce; sent_at = epoch + 5 }

verify_response-encode_response_example :
    (got : DecodedProbe) × ((decode_challenge hmac (encode_challenge hmac asked key) key
        ≡ value got)
      × ((got.is_response ≡ false)
          × ((got.timestamp ≡ epoch + 5)
              × ((back : DecodedProbe) × ((decode_response hmac
                        (encode_response hmac got.nonce (epoch + 5) seen_at key)
                        key
                      ≡ value back)
                    × (verify_response asked back ≡ value tt))))))
verify_response-encode_response_example =
    verify_response-encode_response hmac asked (epoch + 5) seen_at key hmac_size refl epoch-Telling
      epoch-Telling seen_at-IsAddr (omega arith)

abbrev datagram : List ℕ
datagram = encode_response hmac nonce (epoch + 5) seen_at key

decode-Written_example :
    (decode_challenge hmac datagram key ≡ value answer → Written hmac 1 key datagram answer)
    × (decode_response hmac datagram key ≡ value answer → Written hmac 2 key datagram answer)
decode-Written_example = decode-Written hmac datagram key answer
