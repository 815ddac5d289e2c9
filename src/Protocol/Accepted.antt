-- ===== src/Protocol/Accepted.antt =====
-- What an envelope is that passes the checks.
use nostmesh.Base.{
  ℕ, ◌≤◌, String, ◌≡◌, ◌≢◌, ◌↔◌, ◌⊎◌, inl, inr, refl, ap, true, false, not, ◌&&◌, List, [], ◌∷◌, In,
  any-In, ℤ, pos, negsuc, Option, none, is_some, nat_eq_iff, string_eq, ◌==◌, ==-false, arith,
  Bool-cases,
}
use Prim.Native.String.{len}
use nostmesh.Protocol.Checks.{wrong_recipient, refuse_if, first_error, first_error-AllPass}
use nostmesh.Protocol.Envelope.{namespace, is_known, known_types, Envelope}
use nostmesh.Protocol.Fields.{
  int_eq, check_supported, validate_critical, check_reply_to, field_checks, validate_fields,
  envelope_checks, validate_envelope,
}
use nostmesh.Protocol.Window.{IsId, InWindow, validate_hex_field-IsId, validate_window-InWindow}

-- The envelope of a message for the local node, of this version and one of its types, that names
-- two nodes, a session and itself, marks no extension as critical, has a body and is timely.
pub record ValidEnvelope (base64 : String → Option (List ℕ)) (local_node : String) (now : ℕ)
    (e : Envelope) : Type 0 where
  pub spoken : e.version ≡ pos 1
  pub scoped : e.namespace ≡ "org.nostmesh.experimental"
  pub known : In e.type known_types
  pub plain : e.critical ≡ []
  pub message : IsId 16 e.message_id
  pub session : IsId 32 e.session_id
  pub from : IsId 32 e.sender
  pub to : IsId 32 e.recipient
  pub two_nodes : e.sender ≢ e.recipient
  pub reply : (e.reply_to ≡ "") ⊎ IsId 16 e.reply_to
  pub bounded : len e.body ≤ 32_768
  pub has_body : e.body ≢ ""
  pub encoded : is_some (base64 e.body) ≡ true
  pub ours : (local_node ≡ "") ⊎ (e.recipient ≡ local_node)
  pub timely : InWindow e now

int_eq_sound : (x : ℤ) → (int_eq x (pos 1) ≡ true) ↔ (x ≡ pos 1)
unfolding int_eq
int_eq_sound (pos m) = (
  (λ h. ap pos ((nat_eq_iff m 1).0 h)),
  (λ h. (nat_eq_iff m 1).1 (ap (λ x. elim x [ pos n ↦ n | negsuc n ↦ 0 ]) h)),
)
int_eq_sound (negsuc m) = ground arith

validate_critical-nil : (xs : List String) → (validate_critical xs ≡ none) ↔ (xs ≡ [])
unfolding validate_critical check_supported first_error
validate_critical-nil [] = (λ h. refl, λ h. refl)
validate_critical-nil (x ∷ xs) =
    ((λ h. absurd (ground (arith, h))), (λ h. absurd (ground (arith, h))))

check_reply_to-IsId : (v : String) → (check_reply_to v ≡ none) ↔ ((v ≡ "") ⊎ IsId 16 v)
unfolding check_reply_to
check_reply_to-IsId v = elim (Bool-cases (v == "")) [
  | inl e ↦ (λ h. inl ((string_eq.beq_iff v "").0 e), λ h. rw (check_reply_to, e) refl)
  | inr e ↦ (
    (λ h. inr ((validate_hex_field-IsId v 15).0 (rw (check_reply_to, e) at h))),
    (λ h.
        rw (check_reply_to, e)
          (elim h [
            | inl n ↦ absurd (ground (arith, (string_eq.beq_iff v "").1 n))
            | inr i ↦ (validate_hex_field-IsId v 15).1 i
          ])),
  )
]

is_known-In : (t : String) → (is_known t ≡ true) ↔ In t known_types
unfolding is_known
is_known-In t = any-In known_types t

for_us :
    (local_node recipient : String)
    → (not (local_node == "") && not (recipient == local_node)) ≡ false
    → (local_node ≡ "") ⊎ (recipient ≡ local_node)
for_us local_node recipient h = elim (Bool-cases (local_node == "")) [
  | inl e ↦ inl ((string_eq.beq_iff local_node "").0 e)
  | inr e ↦ inr ((string_eq.beq_iff recipient local_node).0 (ground arith))
]

module _ (base64 : String → Option (List ℕ)) where
  accepted_is_valid :
      (e : Envelope) (local_node : String) (now : ℕ)
      → validate_envelope base64 e local_node now ≡ none
      → ValidEnvelope base64 local_node now e
  unfolding validate_envelope validate_fields envelope_checks field_checks
  accepted_is_valid e local_node now h =
      let (v, (n, (t, (c, (f, (r, (w, _))))))) =
        (first_error-AllPass (envelope_checks base64 e local_node now)).0 h in
      let (m, (s, (from, (to, (d, (rep, (b, (l, (enc, _))))))))) =
        (first_error-AllPass (field_checks base64 e)).0 f in
      record {
        spoken = (int_eq_sound e.version).0 (ground (arith, v));
        scoped = ground (arith, n, string_eq.beq_iff e.namespace namespace);
        known = (is_known-In e.type).0 (ground (arith, t));
        plain = (validate_critical-nil e.critical).0 c;
        message = (validate_hex_field-IsId e.message_id 15).0 m;
        session = (validate_hex_field-IsId e.session_id 31).0 s;
        from = (validate_hex_field-IsId e.sender 31).0 from;
        to = (validate_hex_field-IsId e.recipient 31).0 to;
        two_nodes = λ q. absurd (ground (arith, d, (string_eq.beq_iff e.sender e.recipient).1 q));
        reply = (check_reply_to-IsId e.reply_to).0 rep;
        bounded = ground (arith, l);
        has_body = λ q. absurd (ground (arith, b, (string_eq.beq_iff e.body "").1 q));
        encoded = ground (arith, enc);
        ours = for_us local_node e.recipient (ground (arith, r));
        timely = (validate_window-InWindow e now).0 w;
      }

  valid_is_accepted :
      (e : Envelope) (local_node : String) (now : ℕ)
      → ValidEnvelope base64 local_node now e
      → validate_envelope base64 e local_node now ≡ none
  unfolding validate_envelope validate_fields envelope_checks field_checks
  valid_is_accepted e local_node now v =
      let fields : validate_fields base64 e ≡ none =
        (first_error-AllPass (field_checks base64 e)).1 (
          (validate_hex_field-IsId e.message_id 15).1 v.message,
          (
            (validate_hex_field-IsId e.session_id 31).1 v.session,
            (
              (validate_hex_field-IsId e.sender 31).1 v.from,
              (
                (validate_hex_field-IsId e.recipient 31).1 v.to,
                (
                  ground (arith, ==-false e.sender e.recipient v.two_nodes),
                  (
                    (check_reply_to-IsId e.reply_to).1 v.reply,
                    (
                      ground (arith, ==-false e.body "" v.has_body),
                      (ground (arith, v.bounded), (ground (arith, v.encoded), tt)),
                    ),
                  ),
                ),
              ),
            ),
          ),
        ) in
      (first_error-AllPass (envelope_checks base64 e local_node now)).1 (
        ground (arith, (int_eq_sound e.version).1 v.spoken),
        (
          ground (arith, (string_eq.beq_iff e.namespace namespace).1 v.scoped),
          (
            ground (arith, (is_known-In e.type).1 v.known),
            (
              (validate_critical-nil e.critical).1 v.plain,
              (fields, (ours v.ours, ((validate_window-InWindow e now).1 v.timely, tt))),
            ),
          ),
        ),
      )
    where
      ours :
          (local_node ≡ "") ⊎ (e.recipient ≡ local_node)
          → refuse_if (not (local_node == "") && not (e.recipient == local_node)) wrong_recipient
            ≡ none
      ours (inl q) = ground (arith, (string_eq.beq_iff local_node "").1 q)
      ours (inr q) = ground (arith, (string_eq.beq_iff e.recipient local_node).1 q)

  -- The checks accept exactly the valid envelopes, for any reading of base64: of this version and
  -- namespace and a known type, with identifiers of the right size that are not zero, two nodes,
  -- no critical extension, a bounded body, for this node if one is given, and inside the window.
  pub validate_envelope-ValidEnvelope :
      (e : Envelope) (local_node : String) (now : ℕ)
      → (validate_envelope base64 e local_node now ≡ none) ↔ ValidEnvelope base64 local_node now e
  validate_envelope-ValidEnvelope e local_node now =
      (accepted_is_valid e local_node now, valid_is_accepted e local_node now)
