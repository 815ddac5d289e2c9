-- ===== src/Protocol/Window.antt =====
-- What the checks of identifiers and of the validity window ask for.
use nostmesh.Base.{
  ℕ, suc, ◌+◌, ◌*◌, ◌≤◌, ◌<◌, String, ◌≡◌, ◌↔◌, inl, inr, refl, sym, ap, subst, false, List, [],
  length, ℤ, pos, negsuc, pos_part, neg_part, none, some, string_eq, ◌==◌, arith, Bool-cases,
  Option-cases,
}
use nostmesh.Base.Time.{second, unix_epoch}
use nostmesh.Session.Start.{all_zero}
use nostmesh.Protocol.Checks.{first_error, hex_decode}
use nostmesh.Protocol.Envelope.{Envelope}
use nostmesh.Protocol.Fields.{check_bytes, validate_hex_field, window_checks, validate_window}

-- A text that writes as many bytes in hexadecimal digits, not all of them zero.
pub record IsId (n : ℕ) (value : String) : Type 0 where
  pub raw : List ℕ
  pub read : hex_decode value ≡ some raw
  pub sized : length raw ≡ n
  pub nonzero : all_zero raw ≡ false

-- The instant that a number of seconds names.
abbrev pub instant : ℤ → ℕ
instant s = (unix_epoch + pos_part s) * second

-- A window of at most ten minutes that has begun and not ended, within five minutes either way.
pub record InWindow (e : Envelope) (now : ℕ) : Type 0 where
  pub positive : 0 < pos_part e.created_at
  pub ordered : pos_part e.created_at < pos_part e.expires_at
  pub short : pos_part e.expires_at ≤ pos_part e.created_at + 600
  pub begun : instant e.created_at ≤ now + 300 * second
  pub live : now ≤ instant e.expires_at + 300 * second

not_empty :
    (value : String) (raw : List ℕ) → hex_decode value ≡ some raw → value ≡ "" → length raw ≡ 0
unfolding hex_decode
not_empty value raw r e =
    let none_read : some [] ≡ some raw = subst (λ v. hex_decode v ≡ some raw) e r in
    sym (ap (λ o. elim o [ none ↦ 0 | some bytes ↦ length bytes ]) none_read)

pub validate_hex_field-IsId :
    (value : String) (n : ℕ) → (validate_hex_field value (suc n) ≡ none) ↔ IsId (suc n) value
unfolding validate_hex_field check_bytes first_error
validate_hex_field-IsId value n = (
  (λ h. elim (Option-cases (hex_decode value)) [
    | inl r ↦ absurd (ground arith)
    | inr (raw, r) ↦ record { raw = raw; read = r; sized = ground arith; nonzero = ground arith }
  ]),
  (λ i. elim (Bool-cases (value == "")) [
    | inl e ↦
        absurd
          (omega (arith, i.sized, not_empty value i.raw i.read ((string_eq.beq_iff value "").0 e)))
    | inr e ↦ rw (validate_hex_field, e, i.read, check_bytes, i.nonzero) (ground (arith, i.sized))
  ]),
)

no_neg_part : (s : ℤ) → 0 < pos_part s → neg_part s ≡ 0
no_neg_part (pos m) h = refl
no_neg_part (negsuc m) h = absurd (omega arith)

-- The window of two numbers of seconds.
abbrev Within : ℤ → ℤ → ℕ → Type 0
Within created expires now =
    (0 < pos_part created)
    × ((pos_part created < pos_part expires)
        × ((pos_part expires ≤ pos_part created + 600)
            × ((instant created ≤ now + 300 * second) × (now ≤ instant expires + 300 * second))))

within :
    (e : Envelope) (now : ℕ) → (validate_window e now ≡ none) ↔ Within e.created_at e.expires_at now
unfolding validate_window window_checks first_error
within e now = ground (arith, no_neg_part e.created_at, no_neg_part e.expires_at)

pub validate_window-InWindow :
    (e : Envelope) (now : ℕ) → (validate_window e now ≡ none) ↔ InWindow e now
validate_window-InWindow e now = (
  (λ h.
      let (p, (o, (s, (b, l)))) = (within e now).0 h in
      record { positive = p; ordered = o; short = s; begun = b; live = l }),
  (λ w. (within e now).1 (w.positive, (w.ordered, (w.short, (w.begun, w.live))))),
)
