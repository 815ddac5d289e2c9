-- ===== src/Routes/Kernel.antt =====
-- The lists that `Select` reports are the difference between the old selection and the new one.
use nostmesh.Base.{
  Bool, ℕ, ◌≡◌, inl, inr, refl, sym, subst, ◌∙◌, true, false, ◌&&◌, not, List, [], ◌∷◌, Option,
  none, some, arith, Bool-cases, Option-cases, if◌then◌else◌, ap, ◌==◌, ℕ_eq, ℤ,
}
use nostmesh.Base.Map.{lookup, has}
use nostmesh.Net.{Prefix, prefix_eq}
use nostmesh.Routes.Table.{Route, Providers, RouteTable, Selection, providers_of}
use nostmesh.Routes.Offers.{Distinct}
use nostmesh.Routes.Select.{
  drop, Progress, change_for, perform, select_offers, select_lost, select, best_for,
}
use nostmesh.Routes.Pointwise.{
  View, view, effect, installed_at, listed_at, view-perform, Keyed, OwnKeys, change_for-Keeps,
  best_for-OwnKeys,
}

-- The first loop leaves a destination that no entry names.
select_offers-absent :
    (hy : ℤ) (now : ℕ) (es : List (Prefix × Providers)) (s : Progress) (p : Prefix)
    → Keyed es
    → has p es ≡ false
    → view p (select_offers hy now es s) ≡ view p s
unfolding select_offers
select_offers-absent hy now [] s p k a = refl
select_offers-absent hy now ((q, ps) ∷ es) s p k a =
    let c = change_for hy now ps (lookup q s.selected) in
    select_offers-absent hy now es (perform q c s) p (k.1) (ground arith)
    ∙ ground
        (arith, view-perform p q c s (change_for-Keeps q hy now ps (lookup q s.selected) (k.0)))

-- The first loop changes a destination once, by its own offers and its own selection.
select_offers-present :
    (hy : ℤ) (now : ℕ) (es : List (Prefix × Providers)) (s : Progress) (p : Prefix) (ps : Providers)
    → Keyed es
    → Distinct es
    → lookup p es ≡ some ps
    → view p (select_offers hy now es s)
      ≡ effect (change_for hy now ps (lookup p s.selected)) (view p s)
unfolding select_offers
select_offers-present hy now [] s p ps k d h = absurd (ground arith)
select_offers-present hy now ((q, qs) ∷ es) s p ps k d h = elim (Bool-cases (q == p)) [
  | inl e ↦
      let same : q ≡ p = (prefix_eq.beq_iff q p).0 e in
      let mine : qs ≡ ps = ground arith in
      let c = change_for hy now qs (lookup q s.selected) in
      select_offers-absent hy now es (perform q c s) p (k.1) (rw same at (d.0))
      ∙ ground
          (arith, view-perform p q c s (change_for-Keeps q hy now qs (lookup q s.selected) (k.0)))
  | inr e ↦
      let c = change_for hy now qs (lookup q s.selected) in
      let before =
        view-perform p q c s (change_for-Keeps q hy now qs (lookup q s.selected) (k.0)) in
      select_offers-present hy now es (perform q c s) p ps (k.1) (d.1) (ground arith)
      ∙ ground (arith, before)
]

-- The second loop drops a selected destination that no offer names, and leaves the others.
select_lost-view :
    (offers : List (Prefix × Providers)) (es : List (Prefix × Selection)) (s : Progress)
    (p : Prefix)
    → view p (select_lost offers es s)
      ≡ (if has p es && not (has p offers) then effect drop (view p s) else view p s)
unfolding select_lost
select_lost-view offers [] s p = refl
select_lost-view offers ((q, c) ∷ es) s p = ground (
  arith,
  prefix_eq.beq_iff q p,
  select_lost-view offers es s p,
  select_lost-view offers es (perform q drop s) p,
  view-perform p q drop s tt,
)

abbrev selected_provider : Option Selection → Option ℕ
selected_provider current = elim current [ none ↦ none | some c ↦ some c.route.provider ]

-- The provider that a destination is routed through.
abbrev pub provider_at : Prefix → List (Prefix × Selection) → Option ℕ
provider_at p selected = selected_provider (lookup p selected)

abbrev route_provider : Option Route → Option ℕ
route_provider install = elim install [ none ↦ none | some r ↦ some r.provider ]

-- The provider of the route that a list installs last at a destination.
abbrev pub installed_provider : Prefix → List Route → Option ℕ
installed_provider p install = route_provider (installed_at p install)

-- The provider of the new selection, unless it is the old one's.
abbrev pub moved_to : Option ℕ → Option ℕ → Option ℕ
moved_to old none = none
moved_to none (some q) = some q
moved_to (some x) (some q) = if x == q then none else some q

-- A selection that was there and is not any more.
abbrev pub given_up : Option ℕ → Option ℕ → Bool
given_up (some x) none = true
given_up _ _ = false

-- What a destination looks like before the loops.
abbrev pub start : RouteTable → Progress
start t = record { selected = t.selected; install = []; remove = [] }

abbrev chosen_provider : View → Option ℕ
chosen_provider v = selected_provider (v.chosen)

-- The lists, at one destination, are the difference between an old provider and the selection.
abbrev Differs : Option ℕ → View → Type 0
Differs old v =
    (route_provider (v.install) ≡ moved_to old (chosen_provider v))
    × (v.remove ≡ given_up old (chosen_provider v))

effect-Differs :
    (hy : ℤ) (now : ℕ) (ps : Providers) (current : Option Selection)
    → Differs (selected_provider current) (
        effect
          (change_for hy now ps current)
          (record { chosen = current; install = none; remove = false }))
unfolding change_for
effect-Differs hy now ps current = ground arith

-- The progress at the end of `Select`.
abbrev pub finish : ℕ → RouteTable → Progress
finish now t =
    let first = select_offers t.hysteresis now t.offers (start t) in
    select_lost t.offers first.selected first

abbrev pub untouched : Prefix → RouteTable → View
untouched p t = record { chosen = lookup p t.selected; install = none; remove = false }

-- `Select` at a destination that has offers: one change, decided by them and the old selection.
pub finish-offered :
    (now : ℕ) (t : RouteTable) (p : Prefix) (ps : Providers)
    → Keyed t.offers
    → Distinct t.offers
    → lookup p t.offers ≡ some ps
    → view p (finish now t)
      ≡ effect (change_for t.hysteresis now ps (lookup p t.selected)) (untouched p t)
finish-offered now t p ps k d h =
    let first = select_offers t.hysteresis now t.offers (start t) in
    let kept = select_lost-view t.offers first.selected first p in
    let unlost : (has p first.selected && not (has p t.offers)) ≡ false = ground arith in
    kept ∙ rw unlost (select_offers-present t.hysteresis now t.offers (start t) p ps k d h)

-- `Select` at a destination that has no offer: a selection goes.
pub finish-lost :
    (now : ℕ) (t : RouteTable) (p : Prefix)
    → Keyed t.offers
    → lookup p t.offers ≡ none
    → view p (finish now t)
      ≡ (if has p t.selected then effect drop (untouched p t) else untouched p t)
finish-lost now t p k h =
    let first = select_offers t.hysteresis now t.offers (start t) in
    let same = select_offers-absent t.hysteresis now t.offers (start t) p k (ground arith) in
    let chosen : lookup p first.selected ≡ lookup p t.selected = ap (λ v. v.chosen) same in
    select_lost-view t.offers first.selected first p ∙ ground (arith, same, chosen)

finish-Differs :
    (now : ℕ) (t : RouteTable) (p : Prefix)
    → Keyed t.offers
    → Distinct t.offers
    → Differs (provider_at p t.selected) (view p (finish now t))
finish-Differs now t p k d = elim (Option-cases (lookup p t.offers)) [
  | inr (ps, e) ↦
      subst (Differs (provider_at p t.selected)) (sym (finish-offered now t p ps k d e))
        (effect-Differs t.hysteresis now ps (lookup p t.selected))
  | inl e ↦
      subst (Differs (provider_at p t.selected)) (sym (finish-lost now t p k e)) (ground arith)
]

-- Where offers stand under their own destination and provider, each destination once, the lists of
-- `Select` are at every destination the difference between the old selection and the new one: it is
-- on the list of removals exactly if it had a provider and has none any more, and a route is
-- installed for it exactly if it has a provider that is not the one it had, through that provider.
-- A destination that moves from one provider to another is thus installed and not removed.
pub select-difference :
    (now : ℕ) (t : RouteTable) (p : Prefix)
    → Keyed t.offers
    → Distinct t.offers
    → let (lists, t') = select now t in
      let old = provider_at p t.selected in
      let new = provider_at p t'.selected in
      (installed_provider p lists.0 ≡ moved_to old new) × (listed_at p lists.1 ≡ given_up old new)
unfolding select
select-difference now t p k d = finish-Differs now t p k d

effect-offered :
    (p : Prefix) (hy : ℤ) (now : ℕ) (ps : Providers) (current : Option Selection) (q : ℕ)
    → OwnKeys p ps
    → chosen_provider (
        effect
          (change_for hy now ps current)
          (record { chosen = current; install = none; remove = false }))
      ≡ some q
    → has q ps ≡ true
unfolding change_for
effect-offered p hy now ps current q k h = elim (Option-cases (best_for ps now)) [
  | inl e ↦ absurd (ground arith)
  | inr (r, e) ↦ ground (arith, best_for-OwnKeys p ps now r k e)
]

pub OwnKeys-lookup :
    (es : List (Prefix × Providers)) (p : Prefix) (ps : Providers)
    → Keyed es
    → lookup p es ≡ some ps
    → OwnKeys p ps
OwnKeys-lookup [] p ps k h = absurd (ground arith)
OwnKeys-lookup ((q, qs) ∷ es) p ps k h = elim (Bool-cases (q == p)) [
  | inl e ↦
      let same : q ≡ p = (prefix_eq.beq_iff q p).0 e in
      let mine : qs ≡ ps = ground arith in
      subst (λ x. OwnKeys p x) mine (subst (λ x. OwnKeys x qs) same (k.0))
  | inr e ↦ OwnKeys-lookup es p ps (k.1) (ground arith)
]

-- Where offers stand under their own destination and provider, each destination once, a destination
-- that `Select` leaves with a selection is one that its provider still offers.
pub select-offered :
    (now : ℕ) (t : RouteTable) (p : Prefix) (q : ℕ)
    → Keyed t.offers
    → Distinct t.offers
    → provider_at p (select now t).1.selected ≡ some q
    → has q (providers_of p t.offers) ≡ true
unfolding select
select-offered now t p q k d h = elim (Option-cases (lookup p t.offers)) [
  | inr (ps, e) ↦
      let there_is : has q ps ≡ true =
        effect-offered p t.hysteresis now ps (lookup p t.selected) q
          (OwnKeys-lookup t.offers p ps k e)
          (subst (λ v. chosen_provider v ≡ some q) (finish-offered now t p ps k d e) h) in
      ground (arith, there_is)
  | inl e ↦
      let gone : chosen_provider (view p (finish now t)) ≡ none =
        subst (λ v. chosen_provider v ≡ none) (sym (finish-lost now t p k e)) (ground arith) in
      absurd (ground (arith, gone))
]
