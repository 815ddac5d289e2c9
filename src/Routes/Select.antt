-- ===== src/Routes/Select.antt =====
-- The choice of one route for each destination (internal/domain/routes.go).
use nostmesh.Base.{
  ℕ, ◌+◌, Bool, true, false, not, List, [], ◌∷◌, ◌++◌, Option, none, some, nat_eq, ltb,
  if◌then◌else◌, ℤ, pos_part, neg_part, ℕ_eq,
}
use nostmesh.Base.Map.{lookup, insert, delete, has}
use nostmesh.Net.{Prefix, prefix_eq}
use nostmesh.Routes.Table.{Route, announced, local, Providers, Selection, RouteTable, is_expired}

abbrev pub is_local : Route → Bool
is_local r = elim r.source [ local ↦ true | announced ↦ false ]

-- The order of two offers; keys of 32 bytes order as their hexadecimal texts do.
unfoldable pub better_than : Route → Route → Bool
better_than candidate incumbent =
    if nat_eq candidate.metric incumbent.metric
    then ltb candidate.provider incumbent.provider
    else ltb candidate.metric incumbent.metric

abbrev pub improves : Route → Option Route → Bool
improves r none = true
improves r (some best) = better_than r best

-- The loop of `bestFor`, with the best offer so far.
unfoldable pub best_from : ℕ → Option Route → Providers → Option Route
best_from now best [] = best
best_from now best ((_, r) ∷ rest) =
    let skip = best_from now best rest in
    let take = best_from now (if improves r best then some r else best) rest in
    if is_expired r now then skip else if is_local r then some r else take

unfoldable pub best_for : Providers → ℕ → Option Route
unfolding best_from
best_for providers now = best_from now none providers

-- now.Sub(selectedAt) < hysteresis, over the integers.
unfoldable pub holds : Selection → ℕ → ℤ → Bool
holds current now hysteresis =
    ltb (now + neg_part hysteresis) (current.selected_at + pos_part hysteresis)

-- What one pass of the loop does to a destination.
pub data Change : Type 0 where
  leave : Change
  refresh : Selection → Change
  replace : Selection → Change
  drop : Change

abbrev pub chosen_now : Route → ℕ → Selection
chosen_now best now = record { route = best; selected_at = now }

-- The switch of `Select`; the offers are those of the destination.
unfoldable pub change_for : ℤ → ℕ → Providers → Option Selection → Change
unfolding best_for holds
change_for hysteresis now providers current = elim (best_for providers now) [
  | none ↦ elim current [ none ↦ leave | some _ ↦ drop ]
  | some best ↦ elim current [
    | none ↦ replace (chosen_now best now)
    | some held ↦
        if nat_eq held.route.provider best.provider
        then refresh (chosen_now best held.selected_at)
        else if not (has held.route.provider providers)
        then replace (chosen_now best now)
        else if holds held now hysteresis
        then leave
        else replace (chosen_now best now)
  ]
]

-- The selection, and the routes to install and the destinations to remove so far.
pub record Progress : Type 0 where
  pub selected : List (Prefix × Selection)
  pub install : List Route
  pub remove : List Prefix

unfoldable pub perform : Prefix → Change → Progress → Progress
perform prefix leave s = s
perform prefix (refresh c) s = record s { selected = insert prefix c s.selected }
perform prefix (replace c) s = record s {
  selected = insert prefix c s.selected;
  install = s.install ++ (c.route ∷ []);
}
perform prefix drop s = record s {
  selected = delete prefix s.selected;
  remove = s.remove ++ (prefix ∷ []);
}

unfoldable pub select_offers : ℤ → ℕ → List (Prefix × Providers) → Progress → Progress
unfolding change_for perform
select_offers hysteresis now [] s = s
select_offers hysteresis now ((prefix, providers) ∷ rest) s =
    select_offers hysteresis now rest
      (perform prefix (change_for hysteresis now providers (lookup prefix s.selected)) s)

-- The second loop: the destinations that no offer names.
unfoldable pub select_lost :
    List (Prefix × Providers) → List (Prefix × Selection) → Progress → Progress
unfolding perform
select_lost offers [] s = s
select_lost offers ((prefix, _) ∷ rest) s =
    select_lost offers rest (if has prefix offers then s else perform prefix drop s)

-- `Select`. The two lists come in the order of the table, which the source sorts for display.
unfoldable pub select : ℕ → RouteTable → (List Route × List Prefix) × RouteTable
unfolding select_offers select_lost
select now t =
    let first =
      select_offers t.hysteresis now t.offers
        (record { selected = t.selected; install = []; remove = [] }) in
    let final = select_lost t.offers first.selected first in
    ((final.install, final.remove), record t { selected = final.selected })
