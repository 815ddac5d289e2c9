-- ===== src/Routes/Table.antt =====
-- The offers of a routing table, and how they come and go (internal/domain/routes.go). A provider
-- is the number that its key's 32 bytes write, 0 for the unset key of a local route.
use nostmesh.Base.{
  ℕ, Bool, true, false, not, ◌&&◌, List, [], ◌∷◌, ◌++◌, Option, none, some, nat_eq, leb,
  if◌then◌else◌, ℤ, ℕ_eq, map,
}
use nostmesh.Base.Map.{lookup, insert, delete}
use nostmesh.Base.Time.{before}
use nostmesh.Net.{Prefix, prefix_eq}

pub data RouteSource : Type 0 where
  announced local : RouteSource

pub record Route : Type 0 where
  pub prefix : Prefix
  pub provider : ℕ
  pub metric : ℕ
  pub source : RouteSource
  pub expires_at : ℕ
  pub version : ℕ

unfoldable pub is_expired : Route → ℕ → Bool
is_expired r now = not (nat_eq r.expires_at 0) && not (before now r.expires_at)

-- An installed route and when it won.
pub record Selection : Type 0 where
  pub route : Route
  pub selected_at : ℕ

abbrev pub Providers : Type 0
Providers = List (ℕ × Route)

pub record RouteTable : Type 0 where
  pub offers : List (Prefix × Providers)
  pub selected : List (Prefix × Selection)
  pub hysteresis : ℤ

unfoldable pub new_table : ℤ → RouteTable
new_table hysteresis = record { offers = []; selected = []; hysteresis = hysteresis }

-- t.offers[prefix], which is the empty map where nothing is held.
abbrev pub providers_of : Prefix → List (Prefix × Providers) → Providers
providers_of prefix offers = elim (lookup prefix offers) [ none ↦ [] | some held ↦ held ]

-- t.offers[prefix][provider]
abbrev pub offer_of : Prefix → ℕ → RouteTable → Option Route
offer_of prefix provider t = lookup provider (providers_of prefix t.offers)

-- Whether an offer is no newer than the one that is held.
abbrev pub is_stale : Route → Option Route → Bool
is_stale r none = false
is_stale r (some held) = leb r.version held.version

unfoldable pub offer : Route → RouteTable → Bool × RouteTable
offer r t =
    let held = providers_of r.prefix t.offers in
    if is_stale r (lookup r.provider held)
    then (false, record t { offers = insert r.prefix held t.offers })
    else (true, record t { offers = insert r.prefix (insert r.provider r held) t.offers })

abbrev pub is_empty : Providers → Bool
is_empty [] = true
is_empty (_ ∷ _) = false

-- delete(t.offers[prefix], provider), and the destination with its last offer.
unfoldable pub withdraw : Prefix → ℕ → RouteTable → RouteTable
withdraw prefix provider t =
    let left = delete provider (providers_of prefix t.offers) in
    if is_empty left
    then record t { offers = delete prefix t.offers }
    else record t { offers = insert prefix left t.offers }

abbrev pub withdraw_all : List (Prefix × ℕ) → RouteTable → RouteTable
withdraw_all [] t = t
withdraw_all ((prefix, provider) ∷ rest) t = withdraw_all rest (withdraw prefix provider t)

unfoldable pub withdraw_provider : ℕ → RouteTable → RouteTable
withdraw_provider provider t = withdraw_all (map (λ e. (e.0, provider)) t.offers) t

-- The lapsed offers, collected before any is removed.
abbrev pub lapsed_at : Prefix → ℕ → Providers → List (Prefix × ℕ)
lapsed_at prefix now [] = []
lapsed_at prefix now ((provider, r) ∷ rest) =
    let more = lapsed_at prefix now rest in
    if is_expired r now then (prefix, provider) ∷ more else more

abbrev pub lapsed : ℕ → List (Prefix × Providers) → List (Prefix × ℕ)
lapsed now [] = []
lapsed now ((prefix, providers) ∷ rest) = lapsed_at prefix now providers ++ lapsed now rest

-- The selected destinations that no provider offers any more.
abbrev pub dropped : List (Prefix × Providers) → List (Prefix × Selection) → List Prefix
dropped offers [] = []
dropped offers ((prefix, _) ∷ rest) =
    let more = dropped offers rest in
    if is_empty (providers_of prefix offers) then prefix ∷ more else more

-- `Expire`; the destinations come in the order of the table, which the source sorts for display.
unfoldable pub expire : ℕ → RouteTable → List Prefix × RouteTable
expire now t = let t' = withdraw_all (lapsed now t.offers) t in (dropped t'.offers t'.selected, t')
