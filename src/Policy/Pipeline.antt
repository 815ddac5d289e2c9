-- ===== src/Policy/Pipeline.antt =====
-- The router as a whole: who can change which offers, and what the kernel holds after a round.
use nostmesh.Base.{
  ℕ, ◌≡◌, ◌⊎◌, inl, inr, refl, sym, subst, ◌∙◌, true, false, List, [], ◌∷◌, none, some, arith,
  Bool-cases, Option-cases, if◌then◌else◌, any, nat_eq, ℕ_eq, nat_eq_iff, map,
}
use nostmesh.Base.Map.{has}
use nostmesh.Net.{Prefix, prefix_eq}
use nostmesh.Routes.Table.{
  Route, RouteTable, offer_of, withdraw, announced, is_expired, withdraw_provider, Providers,
  expire,
}
use nostmesh.Routes.Offers.{
  offer_of-offer, offer_of-withdraw, is_at, offer_of-expire, offer_of-withdraw_all, listed,
}
use nostmesh.Routes.WellFormed.{WellFormed, expire-WellFormed}
use nostmesh.Routes.Select.{select}
use nostmesh.Routes.Kernel.{provider_at, select-offered}
use nostmesh.Policy.Decision.{allowed, decide_route}
use nostmesh.Policy.Admission.{admit_route}
use nostmesh.Policy.Router.{
  Router, announce_one, announce, withdraw_prefixes, disconnect, reconcile,
}

-- A held offer of the announcing provider that an announcement may have put there.
abbrev pub IsAdmitted : ℕ → Prefix → Router → Type 0
IsAdmitted provider p r =
    (admit_route p r.here ≡ none) × (allowed (decide_route provider p r.allowlist) ≡ true)

announce_one-offers :
    (provider : ℕ) (route : Route) (r : Router) (p : Prefix) (q : ℕ)
    → let r' = (announce_one provider route r).1 in
      (r'.allowlist ≡ r.allowlist)
      × (r'.here ≡ r.here)
      × ((offer_of p q r'.table ≡ offer_of p q r.table)
          ⊎ ((q ≡ provider) × (p ≡ route.prefix) × IsAdmitted provider p r))
unfolding announce_one
announce_one-offers provider route r p q = elim (Option-cases (admit_route route.prefix r.here)) [
  | inr (x, e) ↦ (ground arith, ground arith, inl (ground arith))
  | inl e ↦
      let o = record route { provider = provider; source = announced } in
      (
        ground arith,
        ground arith,
        elim (Bool-cases (allowed (decide_route provider route.prefix r.allowlist))) [
          | inr refused ↦ inl (ground arith)
          | inl granted ↦ elim (Bool-cases (is_at route.prefix provider p q)) [
            | inr other ↦ inl (ground (arith, offer_of-offer o r.table p q))
            | inl mine ↦
                let same : route.prefix ≡ p = (prefix_eq.beq_iff route.prefix p).0 (ground arith) in
                inr (ground arith, sym same, subst (λ x. IsAdmitted provider x r) same (e, granted))
          ]
        ],
      )
]

-- An announcement changes no offer of another provider; and where it changes one of its own, the
-- destination is admitted and the policy allows it to the announcing peer.
pub announce-offers :
    (provider : ℕ) (routes : List Route) (r : Router) (p : Prefix) (q : ℕ)
    → (offer_of p q (announce provider routes r).1.table ≡ offer_of p q r.table)
      ⊎ ((q ≡ provider) × IsAdmitted provider p r)
unfolding announce
announce-offers provider [] r p q = inl refl
announce-offers provider (route ∷ routes) r p q =
    let r' = (announce_one provider route r).1 in
    let (same_list, same_here, first) = announce_one-offers provider route r p q in
    elim (announce-offers provider routes r' p q) [
      | inl later ↦ elim first [ inl now ↦ inl (later ∙ now) | inr (own, at, ad) ↦ inr (own, ad) ]
      | inr (own, (ad, al)) ↦ inr (own, (rw (← same_here) ad, rw (← same_list) al))
    ]

-- A withdrawal takes back the offers of its own provider at the named destinations, and no other.
withdraw_prefixes-offers :
    (provider : ℕ) (ps : List Prefix) (r : Router) (p : Prefix) (q : ℕ)
    → offer_of p q (withdraw_prefixes provider ps r).table
      ≡ (if any (λ x. is_at x provider p q) ps then none else offer_of p q r.table)
unfolding withdraw_prefixes
withdraw_prefixes-offers provider [] r p q = refl
withdraw_prefixes-offers provider (x ∷ ps) r p q = ground (
  arith,
  withdraw_prefixes-offers provider ps (record r { table = withdraw x provider r.table }) p q,
  offer_of-withdraw x provider r.table p q,
)

listed-keys :
    (es : List (Prefix × Providers)) (p : Prefix) (v : ℕ)
    → has p es ≡ true
    → listed p v (map (λ e. (e.0, v)) es) ≡ true
listed-keys [] p v h = absurd (ground arith)
listed-keys ((q, ps) ∷ es) p v h =
    ground (arith, prefix_eq.beq_iff q p, nat_eq_iff v v, listed-keys es p v)

listed-others :
    (es : List (Prefix × Providers)) (p : Prefix) (v q : ℕ)
    → nat_eq v q ≡ false
    → listed p q (map (λ e. (e.0, v)) es) ≡ false
listed-others [] p v q h = refl
listed-others ((x, ps) ∷ es) p v q h = ground (arith, listed-others es p v q)

-- A peer that disconnects takes all its offers with it, and no other peer's.
pub disconnect-offers :
    (provider : ℕ) (r : Router) (p : Prefix) (q : ℕ)
    → offer_of p q (disconnect provider r).table
      ≡ (if nat_eq provider q then none else offer_of p q r.table)
unfolding disconnect withdraw_provider
disconnect-offers provider r p q =
    let whole = offer_of-withdraw_all (map (λ e. (e.0, provider)) r.table.offers) r.table p q in
    elim (Bool-cases (nat_eq provider q)) [
      | inr n ↦ ground (arith, whole, listed-others r.table.offers p provider q)
      | inl y ↦
          let same : provider ≡ q = (nat_eq_iff provider q).0 y in
          elim (Bool-cases (has p r.table.offers)) [
            | inl there_is ↦ ground (arith, whole, listed-keys r.table.offers p provider there_is)
            | inr none_is ↦ ground (arith, whole)
          ]
    ]

select-offers : (now : ℕ) (t : RouteTable) → (select now t).1.offers ≡ t.offers
unfolding select
select-offers now t = refl

-- After a round of `Reconcile` on a well-formed table a destination is routed through a provider
-- only if that provider holds an offer for it that has not expired.
pub reconcile-live :
    (now : ℕ) (r : Router) (p : Prefix) (q : ℕ)
    → WellFormed r.table
    → provider_at p (reconcile now r).1.table.selected ≡ some q
    → (x : Route) × (offer_of p q (reconcile now r).1.table ≡ some x) × (is_expired x now ≡ false)
unfolding reconcile
reconcile-live now r p q v h =
    let t = (expire now r.table).1 in
    let w = expire-WellFormed now r.table v in
    let there_is = select-offered now t p q w.keyed w.distinct h in
    elim (Option-cases (offer_of p q t)) [
      | inl e ↦ absurd (ground arith)
      | inr (x, e) ↦ (x, rw (select-offers now t) e, (offer_of-expire now r.table p q x e).0)
    ]
