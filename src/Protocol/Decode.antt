-- ===== src/Protocol/Decode.antt =====
-- Messages are read with limits (`DecodeEnvelope` and `DecodePayload`,
-- internal/protocol/validate.go), for a given strict reading of JSON.
use nostmesh.Base.{ℕ, ◌≤◌, ◌≡◌, List, length, Option, none, some, false, ltb, if◌then◌else◌, pos}
use nostmesh.Base.Outcome.{Result, value, error}
use nostmesh.Protocol.Checks.{Error, malformed, too_large, Check}
use nostmesh.Protocol.Envelope.{max_envelope_size, max_payload_size, Envelope}
use nostmesh.Protocol.Messages.{Payload}
use nostmesh.Protocol.Depth.{check_depth}
use nostmesh.Protocol.Nesting.{outside, Shallow}

module _ {A : Type 0} (json : List ℕ → Option A) where
  unfoldable pub parsed : Option A → Result Error A
  parsed none = error malformed
  parsed (some a) = value a

  unfoldable pub after_depth : List ℕ → Check → Result Error A
  after_depth raw (some e) = error e
  after_depth raw none = parsed (json raw)

  -- What both functions do, within a limit.
  unfoldable pub decode_within : ℕ → List ℕ → Result Error A
  decode_within limit raw =
      if ltb limit (length raw) then error too_large else after_depth raw (check_depth raw)

unfoldable pub decode_envelope : (List ℕ → Option Envelope) → List ℕ → Result Error Envelope
decode_envelope json raw = decode_within json max_envelope_size raw

unfoldable pub decode_payload : (List ℕ → Option Payload) → List ℕ → Result Error Payload
decode_payload json raw = decode_within json max_payload_size raw

-- What a decoder returns, it has read from a document within the limits.
pub record ReadWithin {A : Type 0} (json : List ℕ → Option A) (limit : ℕ) (raw : List ℕ) (a : A)
    : Type 0 where
  pub short : length raw ≤ limit
  pub shallow : Shallow (pos 0) (outside false false raw)
  pub read : json raw ≡ some a

module _ {A : Type 0} (json : List ℕ → Option A) where
  value_or : A → Result Error A → A
  value_or a (value b) = b
  value_or a (error e) = a
