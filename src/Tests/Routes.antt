-- ===== src/Tests/Routes.antt =====
-- A destination that two peers offer: runs of the theorems on a routing table.
use nostmesh.Base.{ℕ, false, [], ◌∷◌, some, pos, ◌≡◌, refl, ℕ_eq}
use nostmesh.Net.{prefix_beq, prefix_eq, Prefix, v4}
use nostmesh.Routes.Table.{is_expired, Route, RouteTable, Providers, announced}
use nostmesh.Routes.Select.{
  select, select_offers, select_lost, change_for, perform, best_for, best_from,
}
use nostmesh.Routes.Pointwise.{listed_at}
use nostmesh.Routes.Kernel.{provider_at, installed_provider, moved_to, given_up, select-difference}

-- 10.0.0.0/8 and 172.16.0.0/12
abbrev pub ten : Prefix
ten = record { addr = record { family = v4; value = 167_772_160 }; bits_plus_one = 9 }

abbrev pub private_b : Prefix
private_b = record { addr = record { family = v4; value = 2_886_729_728 }; bits_plus_one = 13 }

abbrev pub route_of : ℕ → ℕ → ℕ → Route
route_of provider metric expires = record {
  prefix = ten;
  provider = provider;
  metric = metric;
  source = announced;
  expires_at = expires;
  version = 1;
}

abbrev pub near : Route
near = route_of 1 10 1000

abbrev far : Route
far = route_of 2 20 0

abbrev both : Providers
both = (1, near) ∷ (2, far) ∷ []

-- The near peer was chosen and its offer lapses at 1000.
abbrev pub two_offers : RouteTable
two_offers = record {
  offers = (ten, both) ∷ [];
  selected = (ten, record { route = near; selected_at = 100 }) ∷ [];
  hysteresis = pos 50;
}

select-difference_example :
    let (lists, t) = select 2000 two_offers in
    let old = provider_at ten two_offers.selected in
    let new = provider_at ten t.selected in
    (installed_provider ten lists.0 ≡ moved_to old new) × (listed_at ten lists.1 ≡ given_up old new)
unfolding prefix_beq
select-difference_example =
    select-difference 2000 two_offers ten (((refl, refl), ((refl, refl), tt)), tt) (refl, tt)

-- The far peer takes over, and nothing is removed.
far_takes_over :
    let (lists, _) = select 2000 two_offers in
    (installed_provider ten lists.0 ≡ some 2) × (listed_at ten lists.1 ≡ false)
unfolding select select_offers select_lost change_for perform best_for best_from prefix_beq
    is_expired
far_takes_over = (refl, refl)
