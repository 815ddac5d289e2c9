-- ===== src/Probe/Wire.antt =====
-- Probes as bytes (internal/connectivity/probe.go). SHA-256 and HMAC with it are parameters; a text
-- stands for its bytes.
use nostmesh.Base.{
  ℕ, Bool, true, false, not, ◌&&◌, ◌||◌, List, [], ◌∷◌, ◌++◌, length, take, drop, nat_eq, ltb,
  if◌then◌else◌,
}
use nostmesh.Base.Outcome.{Result, value, error}
use nostmesh.Net.{AddrPort, v6, unmap}
use nostmesh.Session.Start.{bytes_eq}
use nostmesh.Wireguard.Port.{zeros}
use nostmesh.Probe.Bytes.{big_endian, read_bytes, unix_nano, from_nano, to_uint64, to_int64, as_16}

abbrev pub nonce_size : ℕ
nonce_size = 16

abbrev pub observed_size : ℕ
observed_size = 18

abbrev pub probe_size : ℕ
probe_size = 75

abbrev pub probe_challenge : ℕ
probe_challenge = 1

abbrev pub probe_response : ℕ
probe_response = 2

pub data Error : Type 0 where
  malformed unauthenticated mismatch : Error

-- Go's `>` on texts.
unfoldable pub is_greater : List ℕ → List ℕ → Bool
is_greater [] ys = false
is_greater (x ∷ xs) [] = true
is_greater (x ∷ xs) (y ∷ ys) = ltb y x || (nat_eq x y && is_greater xs ys)

pub record Challenge : Type 0 where
  pub nonce : List ℕ
  pub sent_at : ℕ

pub record DecodedProbe : Type 0 where
  pub is_response : Bool
  pub nonce : List ℕ
  pub timestamp : ℕ
  pub observed : AddrPort

pub record ParsedProbe : Type 0 where
  pub kind : ℕ
  pub nonce : List ℕ
  pub body : List ℕ
  pub tag : List ℕ

unfoldable pub decoded : ParsedProbe → DecodedProbe
decoded p = record {
  is_response = nat_eq p.kind probe_response;
  nonce = p.nonce;
  timestamp = from_nano (to_int64 (read_bytes 0 (take 8 p.body)));
  observed = record {
    addr = unmap (record { family = v6; value = read_bytes 0 (take 16 (drop 8 p.body)) });
    port = read_bytes 0 (take 2 (drop 24 p.body));
  };
}

-- The parts of a datagram of the right size.
unfoldable pub parse_kind : List ℕ → Result Error ParsedProbe
parse_kind [] = error malformed
parse_kind (kind ∷ rest) =
    if not (nat_eq kind probe_challenge) && not (nat_eq kind probe_response)
    then error malformed
    else value (record {
      kind = kind;
      nonce = take 16 rest;
      body = take 26 (drop 16 rest);
      tag = drop 26 (drop 16 rest);
    })

unfoldable pub parse_probe : List ℕ → Result Error ParsedProbe
parse_probe raw = if not (nat_eq (length raw) probe_size) then error malformed else parse_kind raw

unfoldable pub kind_of : Result Error ParsedProbe → Result Error Bool
kind_of (error e) = error e
kind_of (value p) = value (nat_eq p.kind probe_response)

-- `ProbeKind`
unfoldable pub probe_kind : List ℕ → Result Error Bool
probe_kind raw = kind_of (parse_probe raw)

unfoldable pub verify_response : Challenge → DecodedProbe → Result Error (Unit {0})
verify_response challenge response =
    if not response.is_response
    then error mismatch
    else if not (bytes_eq challenge.nonce response.nonce)
    then error mismatch
    else value tt

-- The moment and the address that a probe states.
unfoldable pub challenge_body : ℕ → List ℕ
challenge_body at = big_endian 8 (to_uint64 (unix_nano at)) ++ zeros observed_size

unfoldable pub response_body : ℕ → AddrPort → List ℕ
response_body at observed =
    big_endian 8 (to_uint64 (unix_nano at))
    ++ (big_endian 16 (as_16 (unmap observed.addr)) ++ big_endian 2 observed.port)

module _ (hmac : List ℕ → List ℕ → List ℕ) where
  -- `authenticateUnbound`
  unfoldable pub authenticate : List ℕ → ℕ → List ℕ → List ℕ → List ℕ
  authenticate key kind nonce body = hmac key (kind ∷ (nonce ++ body))

  unfoldable pub encode : ℕ → List ℕ → List ℕ → List ℕ → List ℕ
  encode kind nonce body key = kind ∷ (nonce ++ (body ++ authenticate key kind nonce body))

  unfoldable pub encode_challenge : Challenge → List ℕ → List ℕ
  encode_challenge challenge key =
      encode probe_challenge challenge.nonce (challenge_body challenge.sent_at) key

  unfoldable pub encode_response : List ℕ → ℕ → AddrPort → List ℕ → List ℕ
  encode_response nonce received_at observed key =
      encode probe_response nonce (response_body received_at observed) key

  -- What both decoders do with a parsed probe, for the kind that they want.
  unfoldable pub verify : ℕ → List ℕ → Result Error ParsedProbe → Result Error DecodedProbe
  verify kind key (error e) = error e
  verify kind key (value p) =
      if not (nat_eq p.kind kind)
      then error mismatch
      else if not (bytes_eq p.tag (authenticate key p.kind p.nonce p.body))
      then error unauthenticated
      else value (decoded p)

  unfoldable pub decode_challenge : List ℕ → List ℕ → Result Error DecodedProbe
  decode_challenge raw key = verify probe_challenge key (parse_probe raw)

  unfoldable pub decode_response : List ℕ → List ℕ → Result Error DecodedProbe
  decode_response raw key = verify probe_response key (parse_probe raw)

-- `DeriveSessionKey`: the label, the session and the two tunnel keys in the order of texts.
unfoldable pub derive_session_key : (List ℕ → List ℕ) → List ℕ → List ℕ → List ℕ → List ℕ → List ℕ
derive_session_key sha256 label session_id local_key peer_key =
    if is_greater local_key peer_key
    then sha256 (label ++ (session_id ++ (peer_key ++ local_key)))
    else sha256 (label ++ (session_id ++ (local_key ++ peer_key)))
