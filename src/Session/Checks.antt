-- ===== src/Session/Checks.antt =====
-- The checks that the operations share (internal/session/transitions.go): that the handshake still
-- runs, that a sequence number carries one content, and that the peer's tunnel key is not swapped.
use nostmesh.Base.{
  ℕ, ℕ_eq, string_eq, Bool, false, not, Option, none, some, String, ◌==◌, if◌then◌else◌, nat_eq,
  length,
}
use nostmesh.Base.Map.{lookup, insert}
use nostmesh.Base.Outcome.{ok, err, ◌>>◌, require, Result, value, error}
use nostmesh.Base.Time.{before, from_unix}
use nostmesh.Session.Types.{
  is_terminal, Error, terminal, sequence_conflict, key_substituted, timeout, key_expired,
  key_encoding, key_size, zero_key, encoding, WireGuardKey, TunnelKey, Content, Codec,
}
use nostmesh.Session.Start.{H, bytes_eq, all_zero, is_expired}

unfoldable pub check_alive : ℕ → H (Unit {0})
unfolding is_expired
check_alive now = do
  require (λ h. not (is_terminal h.state)) terminal
  require (λ h. not (is_expired h now)) timeout

unfoldable pub key_is_expired : TunnelKey → ℕ → Bool
key_is_expired key now = not (before now (from_unix key.expires_at))

-- The caller's codec is a parameter of what follows.
module _ (codec : Codec) where
  unfoldable pub parse_key : String → Result Error WireGuardKey
  parse_key text = elim (codec.decode text) [
    | none ↦ error key_encoding
    | some raw ↦
        if nat_eq (length raw) 32
        then if all_zero raw then error zero_key else value raw
        else error key_size
  ]

  unfoldable pub digest : Content → Option String
  digest content = elim (codec.marshal content) [
    | none ↦ none
    | some text ↦ some (codec.sha256_hex text)
  ]

  unfoldable pub record_seq : ℕ → Content → H (Unit {0})
  record_seq seq content h = elim (digest content) [
    | none ↦ err encoding h
    | some d ↦ elim (lookup seq h.seen_seq) [
      | some previous ↦ if previous == d then ok tt h else err sequence_conflict h
      | none ↦ ok tt (record h { seen_seq = insert seq d h.seen_seq })
    ]
  ]

  -- Whether a key is bound already, and is another one.
  unfoldable pub is_other_key : Option TunnelKey → TunnelKey → Bool
  is_other_key none key = false
  is_other_key (some bound) key = not (bound.public_key == key.public_key)

  unfoldable pub bind_peer_tunnel_key : TunnelKey → ℕ → H (Unit {0})
  unfolding is_other_key key_is_expired
  bind_peer_tunnel_key key now h = elim (parse_key key.public_key) [
    | error e ↦ err e h
    | value parsed ↦
        if all_zero parsed
        then err zero_key h
        else if key_is_expired key now
        then err key_expired h
        else if is_other_key h.peer_tunnel key
        then err key_substituted h
        else if bytes_eq parsed h.local_tunnel_public
        then err key_substituted h
        else ok tt (record h { peer_tunnel = some key })
  ]
