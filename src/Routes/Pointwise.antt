-- ===== src/Routes/Pointwise.antt =====
-- `Select` read at one destination: its selection, the route installed there, its removal.
use nostmesh.Base.{
  ℕ, ◌≡◌, inl, inr, refl, Bool, true, List, [], ◌∷◌, ◌++◌, Option, none, some, arith, All, In, here,
  there, Option-cases, if◌then◌else◌, ◌==◌, ℕ_eq, any, ℤ,
}
use nostmesh.Base.Map.{lookup, has, lookup-insert, lookup-delete}
use nostmesh.Net.{Prefix, prefix_eq}
use nostmesh.Routes.Table.{Route, Providers, Selection}
use nostmesh.Routes.Best.{best_for-live}
use nostmesh.Routes.Select.{
  Change, leave, refresh, replace, drop, Progress, change_for, perform, best_for,
}

-- The route that a list installs last at a destination.
abbrev pub installed_at : Prefix → List Route → Option Route
installed_at p [] = none
installed_at p (r ∷ rs) = elim (installed_at p rs) [
  | some x ↦ some x
  | none ↦ if r.prefix == p then some r else none
]

abbrev pub listed_at : Prefix → List Prefix → Bool
listed_at p = any (λ x. x == p)

-- One destination of the progress: its selection, the route to install, whether to remove it.
pub record View : Type 0 where
  pub chosen : Option Selection
  pub install : Option Route
  pub remove : Bool

abbrev pub view : Prefix → Progress → View
view p s = record {
  chosen = lookup p s.selected;
  install = installed_at p s.install;
  remove = listed_at p s.remove;
}

-- A change as its destination sees it.
abbrev pub effect : Change → View → View
effect leave v = v
effect (refresh c) v = record v { chosen = some c }
effect (replace c) v = record v { chosen = some c; install = some (c.route) }
effect drop v = record v { chosen = none; remove = true }

-- A change that installs a route installs it at its own destination.
abbrev pub Keeps : Prefix → Change → Type 0
Keeps p (replace c) = c.route.prefix ≡ p
Keeps p _ = Unit

installed_at-append :
    (p : Prefix) (r : Route) (rs : List Route)
    → installed_at p (rs ++ (r ∷ [])) ≡ (if r.prefix == p then some r else installed_at p rs)
installed_at-append p r [] = refl
installed_at-append p r (x ∷ rs) = ground (arith, installed_at-append p r rs)

listed_at-append :
    (p q : Prefix) (xs : List Prefix)
    → listed_at p (xs ++ (q ∷ [])) ≡ (if q == p then true else listed_at p xs)
listed_at-append p q [] = ground arith
listed_at-append p q (x ∷ xs) = ground (arith, listed_at-append p q xs)

pub view-perform :
    (p q : Prefix) (c : Change) (s : Progress)
    → Keeps q c
    → view p (perform q c s) ≡ (if q == p then effect c (view p s) else view p s)
unfolding perform
view-perform p q leave s k = ground arith
view-perform p q (refresh c) s k = ground (arith, lookup-insert q p c s.selected)
view-perform p q (replace c) s k =
    ground (arith, lookup-insert q p c s.selected, installed_at-append p c.route s.install)
view-perform p q drop s k =
    ground (arith, lookup-delete q p s.selected, listed_at-append p q s.remove)

-- The offers of a destination stand under it, each under its own provider.
abbrev pub OwnKeys : Prefix → Providers → Type 0
OwnKeys p = All (λ e. (e.1.prefix ≡ p) × (e.1.provider ≡ e.0))

-- Every offer stands under its own destination and provider.
abbrev pub Keyed : List (Prefix × Providers) → Type 0
Keyed [] = Unit
Keyed ((p, ps) ∷ rest) = OwnKeys p ps × Keyed rest

OwnKeys-In :
    (p : Prefix) (ps : Providers) (q : ℕ) (r : Route)
    → OwnKeys p ps
    → In (q, r) ps
    → (r.prefix ≡ p) × (r.provider ≡ q)
OwnKeys-In p [] q r h m = elim m [ ]
OwnKeys-In p ((o, x) ∷ ps) q r h (here e) = ground arith
OwnKeys-In p (x ∷ ps) q r h (there m) = OwnKeys-In p ps q r (h.1) m

has-In : (ps : Providers) (q : ℕ) (r : Route) → In (q, r) ps → has q ps ≡ true
has-In [] q r m = elim m [ ]
has-In ((o, x) ∷ ps) q r (here e) = ground arith
has-In ((o, x) ∷ ps) q r (there m) = ground (arith, has-In ps q r m)

pub best_for-OwnKeys :
    (p : Prefix) (ps : Providers) (now : ℕ) (r : Route)
    → OwnKeys p ps
    → best_for ps now ≡ some r
    → (r.prefix ≡ p) × (has r.provider ps ≡ true)
best_for-OwnKeys p ps now r k h =
    let (_, (q, m)) = best_for-live ps now r h in
    let (same, own) = OwnKeys-In p ps q r k m in (same, rw own (has-In ps q r m))

pub change_for-Keeps :
    (p : Prefix) (hy : ℤ) (now : ℕ) (ps : Providers) (current : Option Selection)
    → OwnKeys p ps
    → Keeps p (change_for hy now ps current)
unfolding change_for
change_for-Keeps p hy now ps current k = elim (Option-cases (best_for ps now)) [
  | inl e ↦ ground arith
  | inr (r, e) ↦ ground (arith, best_for-OwnKeys p ps now r k e)
]
