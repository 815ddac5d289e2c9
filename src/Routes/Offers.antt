-- ===== src/Routes/Offers.antt =====
-- What each operation does to the offers, read at one destination and provider.
use nostmesh.Base.{
  ℕ, ◌≡◌, refl, Bool, true, false, ◌&&◌, List, [], ◌∷◌, ◌++◌, none, some, arith, if◌then◌else◌,
  ◌==◌, ℕ_eq, any, ◌||◌,
}
use nostmesh.Base.Map.{lookup, insert, delete, has, lookup-insert, lookup-delete}
use nostmesh.Net.{Prefix, prefix_eq}
use nostmesh.Routes.Table.{
  Route, Providers, RouteTable, is_expired, offer_of, providers_of, is_empty, offer, is_stale,
  withdraw, withdraw_all, lapsed, lapsed_at, expire,
}

-- The prefix and the provider are those asked for.
abbrev pub is_at : Prefix → ℕ → Prefix → ℕ → Bool
is_at p q prefix provider = (p == prefix) && (q == provider)

-- An accepted offer is what is held afterwards for its destination and provider; a refused one
-- changes nothing; and every other offer stays.
pub offer_of-offer :
    (r : Route) (t : RouteTable) (p : Prefix) (q : ℕ)
    → let (accepted, t') = offer r t in
      offer_of p q t'
      ≡ (if is_at r.prefix r.provider p q && accepted then some r else offer_of p q t)
unfolding offer
offer_of-offer r t p q = ground (
  arith,
  prefix_eq.beq_iff r.prefix p,
  lookup-insert r.prefix p (providers_of r.prefix t.offers) t.offers,
  lookup-insert r.prefix p (insert r.provider r (providers_of r.prefix t.offers)) t.offers,
  lookup-insert r.provider q r (providers_of r.prefix t.offers),
)

pub offer-stale :
    (r : Route) (t : RouteTable)
    → (offer r t).0 ≡ (if is_stale r (offer_of r.prefix r.provider t) then false else true)
unfolding offer
offer-stale r t = ground arith

-- A withdrawal takes back the offer of the named provider for the named destination; every other
-- offer stays.
pub offer_of-withdraw :
    (prefix : Prefix) (provider : ℕ) (t : RouteTable) (p : Prefix) (q : ℕ)
    → offer_of p q (withdraw prefix provider t)
      ≡ (if is_at prefix provider p q then none else offer_of p q t)
unfolding withdraw
offer_of-withdraw prefix provider t p q = ground (
  arith,
  prefix_eq.beq_iff prefix p,
  empty_lookup,
  lookup-delete prefix p t.offers,
  lookup-insert prefix p (delete provider (providers_of prefix t.offers)) t.offers,
  lookup-delete provider q (providers_of prefix t.offers),
)
  where
    empty_lookup :
        is_empty (delete provider (providers_of prefix t.offers)) ≡ true
        → lookup q (delete provider (providers_of prefix t.offers)) ≡ none
    empty_lookup e = go (delete provider (providers_of prefix t.offers)) e
      where
        go : (ps : Providers) → is_empty ps ≡ true → lookup q ps ≡ none
        go [] h = refl
        go (x ∷ ps) h = cc

-- After a withdrawal of an offer's destination and provider the offer is accepted, whatever its
-- version, and is what is held.
pub offer-withdraw :
    (r : Route) (t : RouteTable)
    → let (accepted, t') = offer r (withdraw r.prefix r.provider t) in
      (accepted ≡ true) × (offer_of r.prefix r.provider t' ≡ some r)
offer-withdraw r t = ground (
  arith,
  offer-stale r (withdraw r.prefix r.provider t),
  offer_of-offer r (withdraw r.prefix r.provider t) r.prefix r.provider,
  offer_of-withdraw r.prefix r.provider t r.prefix r.provider,
  prefix_eq.beq_iff r.prefix r.prefix,
)

abbrev pub listed : Prefix → ℕ → List (Prefix × ℕ) → Bool
listed p q = any (λ e. is_at e.0 e.1 p q)

pub offer_of-withdraw_all :
    (xs : List (Prefix × ℕ)) (t : RouteTable) (p : Prefix) (q : ℕ)
    → offer_of p q (withdraw_all xs t) ≡ (if listed p q xs then none else offer_of p q t)
offer_of-withdraw_all [] t p q = refl
offer_of-withdraw_all ((prefix, provider) ∷ xs) t p q = ground (
  arith,
  offer_of-withdraw_all xs (withdraw prefix provider t) p q,
  offer_of-withdraw prefix provider t p q,
)

listed-append :
    (p : Prefix) (q : ℕ) (xs ys : List (Prefix × ℕ))
    → listed p q (xs ++ ys) ≡ (listed p q xs || listed p q ys)
listed-append p q [] ys = refl
listed-append p q (x ∷ xs) ys = ground (arith, listed-append p q xs ys)

listed-lapsed_at :
    (p : Prefix) (q now : ℕ) (ps : Providers) (r : Route)
    → lookup q ps ≡ some r
    → is_expired r now ≡ true
    → listed p q (lapsed_at p now ps) ≡ true
listed-lapsed_at p q now [] r h e = ground arith
listed-lapsed_at p q now ((o, x) ∷ ps) r h e =
    ground (arith, prefix_eq.beq_iff p p, listed-lapsed_at p q now ps r)

listed-lapsed :
    (p : Prefix) (q now : ℕ) (offers : List (Prefix × Providers)) (r : Route)
    → lookup q (providers_of p offers) ≡ some r
    → is_expired r now ≡ true
    → listed p q (lapsed now offers) ≡ true
listed-lapsed p q now [] r h e = ground arith
listed-lapsed p q now ((o, ps) ∷ rest) r h e = ground (
  arith,
  prefix_eq.beq_iff o p,
  listed-append p q (lapsed_at o now ps) (lapsed now rest),
  listed-lapsed_at p q now ps r,
  listed-lapsed p q now rest r,
)

-- An offer that `Expire` leaves has not expired, and was held before.
pub offer_of-expire :
    (now : ℕ) (t : RouteTable) (p : Prefix) (q : ℕ) (r : Route)
    → offer_of p q (expire now t).1 ≡ some r
    → (is_expired r now ≡ false) × (offer_of p q t ≡ some r)
unfolding expire
offer_of-expire now t p q r h =
    ground
      (arith, offer_of-withdraw_all (lapsed now t.offers) t p q, listed-lapsed p q now t.offers r)

-- No key of the map stands in two entries.
abbrev pub Distinct {ℓ} : {V : Type ℓ} → List (Prefix × V) → Type 0
Distinct [] = Unit
Distinct ((p, _) ∷ rest) = (has p rest ≡ false) × Distinct rest
