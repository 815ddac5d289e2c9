-- ===== src/Protocol/Payloads.antt =====
-- The checks of a decrypted payload (internal/protocol/validate.go), for a given reading of base64
-- and of prefixes. An index that only an error's text names is left out.
use nostmesh.Base.{
  ℕ, ◌-◌, String, Bool, true, false, not, ◌&&◌, ◌||◌, List, [], ◌∷◌, any, map, length, Option, none,
  some, ltb, nat_eq, string_eq, ◌==◌, is_nonpos,
}
use Prim.Native.Char.{code}
use nostmesh.Net.{Prefix, masked, prefix_eq}
use nostmesh.Session.Types.{Capabilities, TunnelKey, SessionRequest, SessionOffer, SessionAccept}
use nostmesh.Session.Start.{all_zero}
use nostmesh.Session.Checks.{key_is_expired}
use nostmesh.Protocol.Checks.{
  unsupported_version, unknown_type, too_large, expired, malformed, Check, refuse_if, first_error,
  hex_decode,
}
use nostmesh.Protocol.Envelope.{Envelope, version, max_clock_skew}
use nostmesh.Protocol.Fields.{int_eq, validate_hex_field}
use nostmesh.Protocol.Messages.{
  Candidate, CandidateUpdate, RouteAnnounce, RouteWithdraw, SessionClose, SessionError, Payload,
  candidate_type_is_known, matches_envelope,
}

abbrev pub is_empty {ℓ} : {A : Type ℓ} → List A → Bool
is_empty [] = true
is_empty (_ ∷ _) = false

abbrev pub max_announced_routes : ℕ
max_announced_routes = 64

abbrev pub max_candidates : ℕ
max_candidates = 32

unfoldable pub validate_capabilities : Capabilities → Check
validate_capabilities c = first_error (
    refuse_if (is_empty c.protocol_versions) malformed
    ∷ refuse_if (not (any (λ v. int_eq v version) c.protocol_versions)) unsupported_version
    ∷ refuse_if (is_empty c.transports) malformed
    ∷ [])

unfoldable pub check_digest : Option (List ℕ) → Check
check_digest none = some malformed
check_digest (some raw) = refuse_if (not (nat_eq (length raw) 32)) malformed

unfoldable pub validate_accept : SessionAccept → Check
validate_accept a = check_digest (hex_decode a.offer_hash)

unfoldable pub check_key_bytes : Option (List ℕ) → Check
check_key_bytes none = some malformed
check_key_bytes (some raw) =
    first_error
      (refuse_if (not (nat_eq (length raw) 32)) malformed ∷ refuse_if (all_zero raw) malformed ∷ [])

-- strings.Contains(text, ":")
unfoldable pub has_colon : String → Bool
has_colon String.[] = false
has_colon (String.◌∷◌ c text) = nat_eq (code c) 58 || has_colon text

unfoldable pub check_candidate : List String → Candidate → Check
check_candidate seen c = first_error (
    refuse_if (c.id == "") malformed
    ∷ refuse_if (any (λ s. s == c.id) seen) malformed
    ∷ refuse_if (not (candidate_type_is_known c.type)) unknown_type
    ∷ refuse_if (not (c.transport == "udp")) unknown_type
    ∷ refuse_if (not (has_colon c.address)) malformed
    ∷ [])

-- The loop, with the ids that it has seen.
unfoldable pub check_candidates : List String → List Candidate → Check
check_candidates seen [] = none
check_candidates seen (c ∷ cs) =
    first_error (check_candidate seen c ∷ check_candidates (c.id ∷ seen) cs ∷ [])

unfoldable pub validate_candidates : CandidateUpdate → Check
validate_candidates u = first_error (
    refuse_if (ltb max_candidates (length u.added)) too_large
    ∷ refuse_if (ltb max_candidates (length u.removed)) too_large
    ∷ refuse_if (is_empty u.added && is_empty u.removed && not u.final) malformed
    ∷ check_candidates [] u.added
    ∷ [])

abbrev pub close_reasons : List String
close_reasons = "normal" ∷ "timeout" ∷ "policy" ∷ "superseded" ∷ "error" ∷ []

unfoldable pub validate_close : SessionClose → Check
validate_close c = refuse_if (not (any (λ r. r == c.reason) close_reasons)) unknown_type

abbrev pub error_codes : List String
error_codes =
    "unsupported_version" ∷ "unauthorized" ∷ "malformed" ∷ "expired" ∷ "replay"
    ∷ "unsupported_capability" ∷ "internal" ∷ []

unfoldable pub validate_error : SessionError → Check
validate_error e = refuse_if (not (any (λ c. c == e.code) error_codes)) unknown_type

module _ (parse_prefix : String → Option Prefix) where
  unfoldable pub check_canonical : Option Prefix → Check
  check_canonical none = some malformed
  check_canonical (some p) = refuse_if (not (p == masked p)) malformed

  unfoldable pub validate_announced_prefix : String → Check
  validate_announced_prefix value = check_canonical (parse_prefix value)

  -- The loop of both messages about routes, with the prefixes that it has seen.
  unfoldable pub check_prefixes : List String → List String → Check
  check_prefixes seen [] = none
  check_prefixes seen (p ∷ ps) = first_error (
      validate_announced_prefix p
      ∷ refuse_if (any (λ s. s == p) seen) malformed
      ∷ check_prefixes (p ∷ seen) ps
      ∷ [])

  unfoldable pub announce_checks : RouteAnnounce → List Check
  announce_checks a =
      refuse_if (is_empty a.routes) malformed
      ∷ refuse_if (ltb max_announced_routes (length a.routes)) too_large
      ∷ refuse_if (a.network_id == "") malformed
      ∷ refuse_if (is_nonpos a.valid_until) malformed
      ∷ check_prefixes [] (map (λ r. r.prefix) a.routes)
      ∷ []

  unfoldable pub validate_route_announce : RouteAnnounce → Check
  validate_route_announce a = first_error (announce_checks a)

  unfoldable pub validate_route_withdraw : RouteWithdraw → Check
  validate_route_withdraw w = first_error (
      refuse_if (is_empty w.prefixes) malformed
      ∷ refuse_if (ltb max_announced_routes (length w.prefixes)) too_large
      ∷ refuse_if (w.network_id == "") malformed
      ∷ check_prefixes [] w.prefixes
      ∷ [])

module _ (base64 : String → Option (List ℕ)) where
  unfoldable pub validate_tunnel_key : TunnelKey → ℕ → Check
  validate_tunnel_key k now = first_error (
      check_key_bytes (base64 k.public_key)
      ∷ validate_hex_field k.nonce 16
      ∷ refuse_if (is_nonpos k.expires_at) malformed
      ∷ refuse_if (key_is_expired k (now - max_clock_skew)) expired
      ∷ [])

  unfoldable pub validate_request : SessionRequest → ℕ → Check
  validate_request r now =
      first_error (validate_capabilities r.capabilities ∷ validate_tunnel_key r.tunnel_key now ∷ [])

  unfoldable pub validate_offer : SessionOffer → ℕ → Check
  validate_offer o now = first_error (
      validate_capabilities o.capabilities
      ∷ validate_tunnel_key o.tunnel_key now
      ∷ refuse_if (not (int_eq o.agreed_version version)) unsupported_version
      ∷ refuse_if (is_empty o.agreed_transports) malformed
      ∷ [])

  -- The case of the switch that applies, if one does.
  abbrev pub or_case {ℓ} : {A : Type ℓ} → Option A → (A → Check) → Check → Check
  or_case none f next = next
  or_case (some a) f next = f a

  unfoldable pub validate_payload : (String → Option Prefix) → Payload → Envelope → ℕ → Check
  validate_payload parse_prefix p e now = first_error (
      matches_envelope p e.type
      ∷ or_case p.request (λ r. validate_request r now)
          (or_case p.offer (λ o. validate_offer o now)
            (or_case p.accept validate_accept (
              or_case p.candidate validate_candidates (
                or_case p.close validate_close (
                  or_case p.error validate_error (
                    or_case p.route_announce (validate_route_announce parse_prefix)
                      (or_case p.route_withdraw (validate_route_withdraw parse_prefix) none)))))))
      ∷ [])
