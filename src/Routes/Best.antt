-- ===== src/Routes/Best.antt =====
-- Which offer wins a destination.
use nostmesh.Base.{
  ℕ, ◌≡◌, ◌≢◌, ◌⊎◌, inl, inr, true, false, [], ◌∷◌, Option, none, some, arith, All, In, here, there,
  Bool-cases, if◌then◌else◌, ap,
}
use nostmesh.Routes.Table.{Route, Providers, is_expired}
use nostmesh.Routes.Select.{is_local, better_than, improves, best_from, best_for}

-- The order is strict and total on offers of different providers.
pub better_than_asym : (a b : Route) → better_than a b ≡ true → better_than b a ≡ false
unfolding better_than
better_than_asym a b h = ground arith

better_than_total :
    (a b : Route) → a.provider ≢ b.provider → better_than a b ≡ false → better_than b a ≡ true
unfolding better_than
better_than_total a b n h = ground arith

not_better_trans :
    (a b c : Route) → better_than b a ≡ false → better_than c b ≡ false → better_than c a ≡ false
unfolding better_than
not_better_trans a b c h k = ground arith

-- No local offer in a list is live.
abbrev pub NoLiveLocal : ℕ → Providers → Type 0
NoLiveLocal now ps = All (λ e. (is_expired e.1 now ≡ true) ⊎ (is_local e.1 ≡ false)) ps

-- No live offer in a list is better.
abbrev pub Unbeaten : ℕ → Route → Providers → Type 0
Unbeaten now r ps = All (λ e. (is_expired e.1 now ≡ true) ⊎ (better_than e.1 r ≡ false)) ps

-- The winner keeps at least the place of the best so far.
best_from-keeps :
    (now : ℕ) (best r : Route) (ps : Providers)
    → NoLiveLocal now ps
    → best_from now (some best) ps ≡ some r
    → (better_than best r ≡ false) × Unbeaten now r ps
unfolding best_from
best_from-keeps now best r [] l h = ground (arith, better_than_asym best best)
best_from-keeps now best r ((q, x) ∷ ps) l h = elim (Bool-cases (is_expired x now)) [
  | inl e ↦ let (a, b) = best_from-keeps now best r ps (l.1) (ground arith) in (a, (inl e, b))
  | inr e ↦ elim (Bool-cases (better_than x best)) [
    | inl y ↦
        let (a, b) = best_from-keeps now x r ps (l.1) (ground arith) in
        (not_better_trans r x best a (better_than_asym x best y), (inr a, b))
    | inr y ↦
        let (a, b) = best_from-keeps now best r ps (l.1) (ground arith) in
        (a, (inr (not_better_trans r best x a y), b))
  ]
]

-- Where no live offer of a destination is local, no live offer of it is better than the one that is
-- chosen.
pub best_for-Unbeaten :
    (ps : Providers) (now : ℕ) (r : Route)
    → NoLiveLocal now ps
    → best_for ps now ≡ some r
    → Unbeaten now r ps
unfolding best_for
best_for-Unbeaten [] now r l h = tt
best_for-Unbeaten ((q, x) ∷ ps) now r l h = elim (Bool-cases (is_expired x now)) [
  | inl e ↦ (inl e, best_for-Unbeaten ps now r (l.1) (ground arith))
  | inr e ↦ let (a, b) = best_from-keeps now x r ps (l.1) (ground arith) in (inr a, b)
]

-- The winner is a live offer of the destination.
best_from-live :
    (now : ℕ) (best : Option Route) (ps : Providers) (r : Route)
    → best_from now best ps ≡ some r
    → (best ≡ some r) ⊎ ((is_expired r now ≡ false) × ((q : ℕ) × In (q, r) ps))
unfolding best_from
best_from-live now best [] r h = inl h
best_from-live now best ((q, x) ∷ ps) r h = elim (Bool-cases (is_expired x now)) [
  | inl e ↦ later (best_from-live now best ps r (ground arith))
  | inr e ↦ elim (Bool-cases (is_local x)) [
    | inl l ↦
        let same : x ≡ r = ground arith in inr (rw same at e, (q, here (ap (λ z. (q, z)) same)))
    | inr l ↦
        elim (best_from-live now (if improves x best then some x else best) ps r (ground arith)) [
          | inl b ↦ elim (Bool-cases (improves x best)) [
            | inl i ↦
                let same : x ≡ r = ground arith in
                inr (rw same at e, (q, here (ap (λ z. (q, z)) same)))
            | inr i ↦ inl (ground arith)
          ]
          | inr (a, (p, m)) ↦ inr (a, (p, there m))
        ]
  ]
]
  where
    later :
        (best ≡ some r) ⊎ ((is_expired r now ≡ false) × ((p : ℕ) × In (p, r) ps))
        → (best ≡ some r) ⊎ ((is_expired r now ≡ false) × ((p : ℕ) × In (p, r) ((q, x) ∷ ps)))
    later (inl b) = inl b
    later (inr (a, (p, m))) = inr (a, (p, there m))

-- The chosen offer has not expired, and is one of the destination's offers.
pub best_for-live :
    (ps : Providers) (now : ℕ) (r : Route)
    → best_for ps now ≡ some r
    → (is_expired r now ≡ false) × ((q : ℕ) × In (q, r) ps)
unfolding best_for
best_for-live ps now r h = elim (best_from-live now none ps r h) [
  | inl b ↦ absurd (ground arith)
  | inr w ↦ w
]

-- A destination has no winner only when all its offers have expired.
best_from-some : (now : ℕ) (best : Route) (ps : Providers) → best_from now (some best) ps ≢ none
unfolding best_from
best_from-some now best [] h = ground arith
best_from-some now best ((q, x) ∷ ps) h =
    ground (arith, best_from-some now best ps, best_from-some now x ps)

-- No offer is chosen only where every offer of the destination has expired.
pub best_for-none :
    (ps : Providers) (now : ℕ) → best_for ps now ≡ none → All (λ e. is_expired e.1 now ≡ true) ps
unfolding best_for
best_for-none [] now h = tt
best_for-none ((q, x) ∷ ps) now h = elim (Bool-cases (is_expired x now)) [
  | inl e ↦ (e, best_for-none ps now (ground arith))
  | inr e ↦ absurd (ground (arith, best_from-some now x ps))
]
