-- ===== src/Overlay/Manifest.antt =====
-- The manifest of a network (internal/domain/manifest.go). The digest of a manifest and the check of
-- a signature are parameters. A text that is only measured is its bytes.
use nostmesh.Base.{
  ℕ, zero, suc, ℤ, pos, negsuc, String, Bool, true, false, not, List, [], ◌∷◌, any, length, Option,
  none, some, nat_eq, ltb, leb, if◌then◌else◌, ℕ_eq, ◌==◌,
}
use nostmesh.Session.Types.{NostrKey}
use nostmesh.Overlay.Derive.{NetworkId}

pub record Member : Type 0 where
  pub public_key : NostrKey
  pub alias : String
  pub ipv4 : String

pub record Manifest : Type 0 where
  pub network_id : NetworkId
  pub name : List ℕ
  pub version : ℕ
  pub subnets : List ℕ
  pub members : List Member

pub data Error : Type 0 where
  no_version long_name no_members many_members many_subnets no_key duplicate : Error
  unsigned wrong_issuer bad_signature rollback : Error

-- The loop over the members, with the keys that it has passed.
unfoldable pub check_members : List NostrKey → List Member → Option Error
check_members seen [] = none
check_members seen (m ∷ ms) =
    if nat_eq m.public_key 0
    then some no_key
    else if any (λ k. k == m.public_key) seen
    then some duplicate
    else check_members (m.public_key ∷ seen) ms

unfoldable pub validate : Manifest → Option Error
unfolding check_members
validate m =
    if nat_eq m.version 0
    then some no_version
    else if ltb 64 (length m.name)
    then some long_name
    else if nat_eq (length m.members) 0
    then some no_members
    else if ltb 4096 (length m.members)
    then some many_members
    else if ltb 256 (length m.subnets)
    then some many_subnets
    else check_members [] m.members

abbrev pub nth_or : ℕ → List ℕ → ℕ → ℕ
nth_or default [] n = default
nth_or default (x ∷ xs) zero = x
nth_or default (x ∷ xs) (suc n) = nth_or default xs n

-- The first subnet stands for an index that is out of range.
unfoldable pub subnet_at : Manifest → ℤ → ℕ
subnet_at m index = elim m.subnets [
  | [] ↦ 0
  | first ∷ rest ↦ elim index [ pos n ↦ nth_or first (first ∷ rest) n | negsuc _ ↦ first ]
]

pub record SignedManifest : Type 0 where
  pub manifest : Manifest
  pub issuer : NostrKey
  pub signature : List ℕ

-- The port to the check of signatures: none where no verifier was supplied.
abbrev pub Verifier : Type 0
Verifier = Option (NostrKey → List ℕ → List ℕ → Bool)

abbrev pub is_nil : List ℕ → Bool
is_nil [] = true
is_nil (_ ∷ _) = false

unfoldable pub accept :
    (Manifest → List ℕ) → Verifier → NostrKey → ℕ → SignedManifest → Option Error
unfolding validate
accept digest verifier pinned held signed = elim (validate signed.manifest) [
  | some e ↦ some e
  | none ↦
      let checked : Option Error = elim verifier [
        | none ↦ some unsigned
        | some verify ↦
            if not (verify pinned (digest signed.manifest) signed.signature)
            then some bad_signature
            else if leb signed.manifest.version held
            then some rollback
            else none
      ] in
      if is_nil signed.signature
      then some unsigned
      else if nat_eq pinned 0
      then some wrong_issuer
      else if not (nat_eq signed.issuer pinned)
      then some wrong_issuer
      else checked
]
