-- ===== src/Routes/WellFormed.antt =====
-- The table keeps each offer under its own destination and provider, whatever is done to it.
use nostmesh.Base.{
  ℕ, ◌≡◌, inl, inr, refl, subst, false, List, [], ◌∷◌, arith, map, Bool-cases, Option-cases, ◌==◌,
  ℕ_eq, ℤ,
}
use nostmesh.Base.Map.{lookup, insert, delete, has, lookup-insert, lookup-delete}
use nostmesh.Net.{Prefix, prefix_eq}
use nostmesh.Routes.Table.{
  Route, Providers, RouteTable, offer, withdraw, withdraw_all, withdraw_provider, expire,
  providers_of, is_stale, is_empty, lapsed, new_table,
}
use nostmesh.Routes.Offers.{Distinct}
use nostmesh.Routes.Pointwise.{Keyed, OwnKeys}
use nostmesh.Routes.Kernel.{OwnKeys-lookup}
use nostmesh.Routes.Select.{select}

OwnKeys-insert :
    (p : Prefix) (q : ℕ) (r : Route) (ps : Providers)
    → r.prefix ≡ p
    → r.provider ≡ q
    → OwnKeys p ps
    → OwnKeys p (insert q r ps)
OwnKeys-insert p q r [] a b k = ground arith
OwnKeys-insert p q r ((o, x) ∷ ps) a b k = elim (Bool-cases (o == q)) [
  | inl e ↦ rw e ((a, b), k.1)
  | inr e ↦ rw e (k.0, OwnKeys-insert p q r ps a b (k.1))
]

OwnKeys-delete : (p : Prefix) (q : ℕ) (ps : Providers) → OwnKeys p ps → OwnKeys p (delete q ps)
OwnKeys-delete p q [] k = tt
OwnKeys-delete p q ((o, x) ∷ ps) k = elim (Bool-cases (o == q)) [
  | inl e ↦ rw e (OwnKeys-delete p q ps (k.1))
  | inr e ↦ rw e (k.0, OwnKeys-delete p q ps (k.1))
]

Keyed-insert :
    (p : Prefix) (ps : Providers) (es : List (Prefix × Providers))
    → OwnKeys p ps
    → Keyed es
    → Keyed (insert p ps es)
Keyed-insert p ps [] a k = (a, tt)
Keyed-insert p ps ((q, qs) ∷ es) a k = elim (Bool-cases (q == p)) [
  | inl e ↦ rw e (a, k.1)
  | inr e ↦ rw e (k.0, Keyed-insert p ps es a (k.1))
]

Keyed-delete : (p : Prefix) (es : List (Prefix × Providers)) → Keyed es → Keyed (delete p es)
Keyed-delete p [] k = tt
Keyed-delete p ((q, qs) ∷ es) k = elim (Bool-cases (q == p)) [
  | inl e ↦ rw e (Keyed-delete p es (k.1))
  | inr e ↦ rw e (k.0, Keyed-delete p es (k.1))
]

Distinct-insert :
    (p : Prefix) (ps : Providers) (es : List (Prefix × Providers))
    → Distinct es
    → Distinct (insert p ps es)
Distinct-insert p ps [] d = (refl, tt)
Distinct-insert p ps ((q, qs) ∷ es) d = elim (Bool-cases (q == p)) [
  | inl e ↦ rw e (subst (λ x. has x es ≡ false) ((prefix_eq.beq_iff q p).0 e) (d.0), d.1)
  | inr e ↦ rw e (
    ground (arith, lookup-insert p q ps es, prefix_eq.beq_iff q p, prefix_eq.beq_iff p q),
    Distinct-insert p ps es (d.1),
  )
]

Distinct-delete :
    (p : Prefix) (es : List (Prefix × Providers)) → Distinct es → Distinct (delete p es)
Distinct-delete p [] d = tt
Distinct-delete p ((q, qs) ∷ es) d = elim (Bool-cases (q == p)) [
  | inl e ↦ rw e (Distinct-delete p es (d.1))
  | inr e ↦ rw e (ground (arith, lookup-delete p q es), Distinct-delete p es (d.1))
]

pub record WellFormed (t : RouteTable) : Type 0 where
  pub keyed : Keyed t.offers
  pub distinct : Distinct t.offers

OwnKeys-providers_of :
    (p : Prefix) (es : List (Prefix × Providers)) → Keyed es → OwnKeys p (providers_of p es)
OwnKeys-providers_of p es k = elim (Option-cases (lookup p es)) [
  | inl e ↦ rw (e, providers_of) tt
  | inr (ps, e) ↦ rw (e, providers_of) (OwnKeys-lookup es p ps k e)
]

pub new_table-WellFormed : (h : ℤ) → WellFormed (new_table h)
unfolding new_table
new_table-WellFormed h = record { keyed = tt; distinct = tt }

pub offer-WellFormed : (r : Route) (t : RouteTable) → WellFormed t → WellFormed (offer r t).1
unfolding offer
offer-WellFormed r t v =
    let held = providers_of r.prefix t.offers in
    let own = OwnKeys-providers_of r.prefix t.offers v.keyed in
    elim (Bool-cases (is_stale r (lookup r.provider held))) [
      | inl e ↦ rw e (record {
        keyed = Keyed-insert r.prefix held t.offers own v.keyed;
        distinct = Distinct-insert r.prefix held t.offers v.distinct;
      })
      | inr e ↦ rw e (record {
        keyed =
            Keyed-insert r.prefix (insert r.provider r held) t.offers
              (OwnKeys-insert r.prefix r.provider r held refl refl own) v.keyed;
        distinct = Distinct-insert r.prefix (insert r.provider r held) t.offers v.distinct;
      })
    ]

pub withdraw-WellFormed :
    (p : Prefix) (q : ℕ) (t : RouteTable) → WellFormed t → WellFormed (withdraw p q t)
unfolding withdraw
withdraw-WellFormed p q t v =
    let left = delete q (providers_of p t.offers) in
    elim (Bool-cases (is_empty left)) [
      | inl e ↦ rw e (record {
        keyed = Keyed-delete p t.offers v.keyed;
        distinct = Distinct-delete p t.offers v.distinct;
      })
      | inr e ↦ rw e (record {
        keyed =
            Keyed-insert p left t.offers
              (OwnKeys-delete p q _ (OwnKeys-providers_of p t.offers v.keyed)) v.keyed;
        distinct = Distinct-insert p left t.offers v.distinct;
      })
    ]

withdraw_all-WellFormed :
    (xs : List (Prefix × ℕ)) (t : RouteTable) → WellFormed t → WellFormed (withdraw_all xs t)
withdraw_all-WellFormed [] t v = v
withdraw_all-WellFormed ((p, q) ∷ xs) t v =
    withdraw_all-WellFormed xs (withdraw p q t) (withdraw-WellFormed p q t v)

pub withdraw_provider-WellFormed :
    (q : ℕ) (t : RouteTable) → WellFormed t → WellFormed (withdraw_provider q t)
unfolding withdraw_provider
withdraw_provider-WellFormed q t v = withdraw_all-WellFormed (map (λ e. (e.0, q)) t.offers) t v

pub expire-WellFormed : (now : ℕ) (t : RouteTable) → WellFormed t → WellFormed (expire now t).1
unfolding expire
expire-WellFormed now t v = withdraw_all-WellFormed (lapsed now t.offers) t v

pub select-WellFormed : (now : ℕ) (t : RouteTable) → WellFormed t → WellFormed (select now t).1
unfolding select
select-WellFormed now t v = record { keyed = v.keyed; distinct = v.distinct }
