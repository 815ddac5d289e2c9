-- ===== src/Probe/Proof.antt =====
-- What is accepted as a probe was written with the key.
use nostmesh.Base.{
  ℕ, ◌≡◌, refl, sym, ap, ◌∙◌, subst, true, false, not, ◌&&◌, List, [], ◌∷◌, ◌++◌, length, take,
  drop, take-drop, nat_eq, nat_eq_iff, arith, Bool-cases, inl, inr,
}
use nostmesh.Base.Outcome.{Result, value, error}
use nostmesh.Session.Start.{bytes_eq}
use nostmesh.Session.Bytes.{bytes_eq_sound}
use nostmesh.Probe.Wire.{
  Error, DecodedProbe, ParsedProbe, is_greater, decoded, parse_kind, parse_probe, authenticate,
  encode, verify, decode_challenge, decode_response, derive_session_key,
}

-- A datagram that is the kind, random bytes and a body with their tag, of which the probe is read.
pub record Written (hmac : List ℕ → List ℕ → List ℕ) (kind : ℕ) (key raw : List ℕ)
    (d : DecodedProbe) : Type 0 where
  pub nonce : List ℕ
  pub body : List ℕ
  pub bytes : raw ≡ encode hmac kind nonce body key
  pub same : d.nonce ≡ nonce
  pub told : d.is_response ≡ nat_eq kind 2

-- The parts of a datagram are all of it.
Parts : List ℕ → ParsedProbe → Type 0
Parts raw p = raw ≡ p.kind ∷ (p.nonce ++ (p.body ++ p.tag))

value_same :
    {a b : DecodedProbe} → (let r : Result Error DecodedProbe = value a in r) ≡ value b → a ≡ b
value_same {a = a} e = ap (λ r. elim r [ value x ↦ x | error _ ↦ a ]) e

parts_or : ParsedProbe → Result Error ParsedProbe → ParsedProbe
parts_or p (value q) = q
parts_or p (error e) = p

parse_kind-Parts : (raw : List ℕ) (p : ParsedProbe) → parse_kind raw ≡ value p → Parts raw p
unfolding parse_kind Parts parts_or
parse_kind-Parts [] p h = absurd (ground arith)
parse_kind-Parts (kind ∷ rest) p h =
    elim (Bool-cases (not (nat_eq kind 1) && not (nat_eq kind 2))) [
      | inl u ↦ absurd (ground (arith, rw u at h))
      | inr u ↦
          let e = ap (λ r. parts_or p r) (rw u at h) in
          subst (λ q. kind ∷ rest ≡ q.kind ∷ (q.nonce ++ (q.body ++ q.tag))) e
            (ap (λ l. kind ∷ l)
              (sym (ap (λ l. take 16 rest ++ l) (take-drop 26 (drop 16 rest)) ∙ take-drop 16 rest)))
    ]

parse_probe-Parts : (raw : List ℕ) (p : ParsedProbe) → parse_probe raw ≡ value p → Parts raw p
unfolding parse_probe
parse_probe-Parts raw p h = elim (Bool-cases (nat_eq (length raw) 75)) [
  | inl l ↦ parse_kind-Parts raw p (rw (l, parse_probe) at h)
  | inr l ↦ absurd (ground (arith, rw (l, parse_probe) at h))
]

module _ (hmac : List ℕ → List ℕ → List ℕ) where
  verify_tagged :
      (kind : ℕ) (key : List ℕ) (p : ParsedProbe) (d : DecodedProbe)
      → verify hmac kind key (value p) ≡ value d
      → (p.kind ≡ kind) × ((p.tag ≡ authenticate hmac key p.kind p.nonce p.body) × (decoded p ≡ d))
  unfolding verify
  verify_tagged kind key p d h = elim (Bool-cases (nat_eq p.kind kind)) [
    | inr k ↦ absurd (ground (arith, rw (k, verify) at h))
    | inl k ↦ elim (Bool-cases (bytes_eq p.tag (authenticate hmac key p.kind p.nonce p.body))) [
      | inr t ↦ absurd (ground (arith, rw (k, t, verify) at h))
      | inl t ↦ (
        (nat_eq_iff p.kind kind).0 k,
        (
          bytes_eq_sound p.tag (authenticate hmac key p.kind p.nonce p.body) t,
          value_same (rw (k, t, verify) at h),
        ),
      )
    ]
  ]

  parsed-Written :
      (kind : ℕ) (raw key : List ℕ) (d : DecodedProbe) (o : Result Error ParsedProbe)
      → parse_probe raw ≡ o
      → verify hmac kind key o ≡ value d
      → Written hmac kind key raw d
  unfolding Parts encode decoded verify
  parsed-Written kind raw key d (error e) q h = absurd (ground (arith, h))
  parsed-Written kind raw key d (value p) q h =
      let (k, (t, s)) = verify_tagged kind key p d h in
      record {
        nonce = p.nonce;
        body = p.body;
        bytes =
            parse_probe-Parts raw p q
            ∙ ap (λ l. p.kind ∷ (p.nonce ++ (p.body ++ l))) t
            ∙ ap (λ n. encode hmac n p.nonce p.body key) k;
        same = ap (λ x. x.nonce) (sym s);
        told = ap (λ x. x.is_response) (sym s) ∙ ap (λ n. nat_eq n 2) k;
      }

  -- A datagram that is accepted as a response or as a challenge is the byte for that kind, random
  -- bytes and a body, followed by the tag that the key gives for just those.
  pub decode-Written :
      (raw key : List ℕ) (d : DecodedProbe)
      → (decode_challenge hmac raw key ≡ value d → Written hmac 1 key raw d)
        × (decode_response hmac raw key ≡ value d → Written hmac 2 key raw d)
  unfolding decode_challenge decode_response
  decode-Written raw key d = (
    (λ h. parsed-Written 1 raw key d (parse_probe raw) refl h),
    (λ h. parsed-Written 2 raw key d (parse_probe raw) refl h),
  )

is_greater-asym : (xs ys : List ℕ) → is_greater xs ys ≡ true → is_greater ys xs ≡ false
unfolding is_greater
is_greater-asym [] ys h = absurd (ground arith)
is_greater-asym (x ∷ xs) [] h = refl
is_greater-asym (x ∷ xs) (y ∷ ys) h = ground (arith, is_greater-asym xs ys)

is_greater-total : (xs ys : List ℕ) → is_greater xs ys ≡ false → is_greater ys xs ≡ false → xs ≡ ys
unfolding is_greater
is_greater-total [] [] h k = refl
is_greater-total [] (y ∷ ys) h k = absurd (ground arith)
is_greater-total (x ∷ xs) [] h k = absurd (ground arith)
is_greater-total (x ∷ xs) (y ∷ ys) h k =
    let e : x ≡ y = ground arith in
    rw (e, is_greater-total xs ys (ground arith) (ground arith)) refl

-- Both ends of a session derive the same key for its probes, whichever of the two tunnel keys is
-- their own.
pub derive_session_key_symmetric :
    (sha256 : List ℕ → List ℕ) (label session_id one other : List ℕ)
    → derive_session_key sha256 label session_id one other
      ≡ derive_session_key sha256 label session_id other one
unfolding derive_session_key
derive_session_key_symmetric sha256 label session_id one other =
    elim (Bool-cases (is_greater one other)) [
      | inl g ↦ rw (g, is_greater-asym one other g) refl
      | inr g ↦ elim (Bool-cases (is_greater other one)) [
        | inl k ↦ rw (g, k) refl
        | inr k ↦ rw (g, k, is_greater-total one other g k) refl
      ]
    ]
