-- ===== src/Overlay/Trust.antt =====
-- What a manifest that is accepted has passed.
use nostmesh.Base.{
  ℕ, ◌<◌, ◌≡◌, ◌≢◌, Bool, true, false, List, [], ◌∷◌, All, any, length, none, some, nat_eq, arith,
  Bool-cases, Option-cases, inl, inr, ℕ_eq, ◌==◌,
}
use nostmesh.Session.Types.{NostrKey}
use nostmesh.Overlay.Manifest.{
  Member, Manifest, check_members, validate, SignedManifest, Verifier, accept,
}

-- No two members have one key, and none has the unset key.
abbrev pub DistinctKeys : List Member → Type 0
DistinctKeys [] = Unit
DistinctKeys (m ∷ ms) =
    (m.public_key ≢ 0) × (All (λ n. n.public_key ≢ m.public_key) ms × DistinctKeys ms)

Unseen : List NostrKey → List Member → Type 0
Unseen seen = All (λ m. any (λ k. k == m.public_key) seen ≡ false)

Unseen-split :
    (key : NostrKey) (seen : List NostrKey) (ms : List Member)
    → Unseen (key ∷ seen) ms
    → All (λ n. n.public_key ≢ key) ms × Unseen seen ms
unfolding Unseen
Unseen-split key seen [] u = (tt, tt)
Unseen-split key seen (m ∷ ms) u =
    let later = Unseen-split key seen ms u.1 in
    (((λ p. ground (arith, u.0)), later.0), (ground (arith, u.0), later.1))

check_members-next :
    (seen : List NostrKey) (m : Member) (ms : List Member)
    → check_members seen (m ∷ ms) ≡ none
    → (m.public_key ≢ 0)
      × ((any (λ k. k == m.public_key) seen ≡ false)
          × (check_members (m.public_key ∷ seen) ms ≡ none))
unfolding check_members
check_members-next seen m ms h = elim (Bool-cases (nat_eq m.public_key 0)) [
  | inl z ↦ absurd (ground arith)
  | inr z ↦ elim (Bool-cases (any (λ k. k == m.public_key) seen)) [
    | inl d ↦ absurd (ground arith)
    | inr d ↦ ((λ p. ground arith), (d, ground arith))
  ]
]

check_members-Unseen :
    (seen : List NostrKey) (ms : List Member) → check_members seen ms ≡ none → Unseen seen ms
unfolding Unseen
check_members-Unseen seen [] h = tt
check_members-Unseen seen (m ∷ ms) h =
    let next = check_members-next seen m ms h in
    (
      next.1.0,
      (Unseen-split m.public_key seen ms
          (check_members-Unseen (m.public_key ∷ seen) ms next.1.1)).1,
    )

check_members-DistinctKeys :
    (seen : List NostrKey) (ms : List Member) → check_members seen ms ≡ none → DistinctKeys ms
check_members-DistinctKeys seen [] h = tt
check_members-DistinctKeys seen (m ∷ ms) h =
    let next = check_members-next seen m ms h in
    let unseen = check_members-Unseen (m.public_key ∷ seen) ms next.1.1 in
    (
      next.0,
      (
        (Unseen-split m.public_key seen ms unseen).0,
        check_members-DistinctKeys (m.public_key ∷ seen) ms next.1.1,
      ),
    )

validate-checked :
    (m : Manifest)
    → validate m ≡ none
    → (nat_eq (length m.members) 0 ≡ false) × (check_members [] m.members ≡ none)
unfolding validate
validate-checked m h = (ground arith, ground arith)

-- A manifest that is accepted is signed by the pinned issuer, which a supplied verifier has checked
-- over its digest; it is newer than the one that is held; and it has members, each with a key of its
-- own.
pub accept-DistinctKeys :
    (digest : Manifest → List ℕ) (verifier : Verifier) (pinned : NostrKey) (held : ℕ)
    (signed : SignedManifest)
    → accept digest verifier pinned held signed ≡ none
    → ((verify : NostrKey → List ℕ → List ℕ → Bool) × ((verifier ≡ some verify)
          × (verify pinned (digest signed.manifest) signed.signature ≡ true)))
      × (((signed.issuer ≡ pinned) × (pinned ≢ 0))
          × ((held < signed.manifest.version)
              × ((signed.manifest.members ≢ []) × DistinctKeys signed.manifest.members)))
unfolding accept
accept-DistinctKeys digest verifier pinned held signed h =
    elim (Option-cases (validate signed.manifest)) [
      | inr (e, bad) ↦ absurd (ground arith)
      | inl valid ↦
          let (some_members, checked) = validate-checked signed.manifest valid in
          let verified : (verify : NostrKey → List ℕ → List ℕ → Bool) × ((verifier ≡ some verify)
                × (verify pinned (digest signed.manifest) signed.signature ≡ true)) =
            elim (Option-cases verifier) [
              | inl n ↦ absurd (ground arith)
              | inr (verify, v) ↦ (verify, (v, ground arith))
            ] in
          (
            verified,
            (
              (ground arith, λ p. ground arith),
              (
                ground arith,
                (λ p. ground arith, check_members-DistinctKeys [] signed.manifest.members checked),
              ),
            ),
          )
    ]
