-- ===== src/Tests/Policy.antt =====
-- A peer with a rule, and one in a group: runs of the theorems on policy.
use nostmesh.Base.{ℕ, ℕ_eq, [], ◌∷◌, true, false, none, some, ◌≡◌, ◌⊎◌, refl, In, arith}
use nostmesh.Base.Map.{lookup}
use nostmesh.Net.{Addr, Prefix, v4, contains, overlaps, prefix_beq, prefix_eq}
use nostmesh.Routes.Table.{Route, offer_of, is_expired, expire, withdraw}
use nostmesh.Routes.Select.{select, best_for, holds}
use nostmesh.Routes.WellFormed.{WellFormed}
use nostmesh.Policy.Allowlist.{session, route, Grant, Allowlist, allows}
use nostmesh.Policy.Decision.{
  allowed, decide, decide_route, decide_from_grant, is_default_route, contains_prefix,
}
use nostmesh.Policy.Admission.{LocalNetwork, admit_route, admit_address}
use nostmesh.Policy.Router.{Router, announce, reconcile}
use nostmesh.Policy.Authority.{GrantedBy, CoveredBy, decide-allowed}
use nostmesh.Policy.Limits.{Harmless, decide_route-allowed, admit_route-Harmless}
use nostmesh.Policy.Pipeline.{IsAdmitted, announce-offers, reconcile-live}
use nostmesh.Tests.Routes.{ten, private_b, near, two_offers}

abbrev near_peer : ℕ
near_peer = 1

abbrev grant_of_1 : Grant
grant_of_1 = record {
  peer = 1;
  alias = "near";
  actions = session ∷ route ∷ [];
  allowed_ips = ten ∷ [];
  revoked = false;
}

abbrev allowlist : Allowlist
allowlist = record { grants = (1, grant_of_1) ∷ []; groups = []; accept_default_route = true }

-- 10.1.0.0/16
abbrev ten_one : Prefix
ten_one = record { addr = record { family = v4; value = 167_837_696 }; bits_plus_one = 17 }

decide_route-allowed_example :
    (is_default_route ten_one ≡ false)
    × (allowed (decide 1 route allowlist) ≡ true)
    × ((q : Prefix) × In q (decide 1 route allowlist).allowed_ips
        × ((x : Addr) → contains ten_one x ≡ true → contains q x ≡ true))
unfolding decide_route decide decide_from_grant allows is_default_route contains_prefix contains
decide_route-allowed_example = decide_route-allowed 1 ten_one allowlist (omega arith) refl

abbrev home : LocalNetwork
home = record { transports = []; infrastructure = []; prefixes = private_b ∷ [] }

admit_route-Harmless_example : Harmless ten_one home
unfolding admit_route admit_address prefix_beq overlaps
admit_route-Harmless_example = admit_route-Harmless ten_one home (omega arith) refl

decide-allowed_example :
    ((g : Grant) × (lookup 1 allowlist.grants ≡ some g) × GrantedBy route g)
    ⊎ ((lookup 1 allowlist.grants ≡ none) × CoveredBy 1 route allowlist.groups)
unfolding decide decide_from_grant allows
decide-allowed_example = decide-allowed 1 route allowlist refl

abbrev router : Router
router = record { allowlist = allowlist; table = two_offers; here = home }

announce-offers_example :
    (offer_of ten 1 (announce 1 (record near { version = 2 } ∷ []) router).1.table
      ≡ offer_of ten 1 router.table)
    ⊎ ((near_peer ≡ near_peer) × IsAdmitted 1 ten router)
announce-offers_example = announce-offers 1 (record near { version = 2 } ∷ []) router ten 1

router-WellFormed : WellFormed router.table
router-WellFormed = record {
  keyed = (((refl, refl), ((refl, refl), tt)), tt);
  distinct = (refl, tt);
}

reconcile-live_example :
    (x : Route) × (offer_of ten 2 (reconcile 2000 router).1.table ≡ some x)
    × (is_expired x 2000 ≡ false)
unfolding reconcile expire select best_for is_expired holds withdraw prefix_beq
reconcile-live_example = reconcile-live 2000 router ten 2 router-WellFormed refl
