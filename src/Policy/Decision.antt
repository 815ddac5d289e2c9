-- ===== src/Policy/Decision.antt =====
-- A decision and its limits (internal/policy/decision.go).
use nostmesh.Base.{
  ℕ, String, Bool, true, false, not, ◌&&◌, ◌||◌, List, [], ◌∷◌, none, some, nat_eq, ltb,
  if◌then◌else◌, any, ℕ_eq,
}
use nostmesh.Base.Map.{lookup}
use nostmesh.Net.{Prefix, contains, masked, prefix_eq}
use nostmesh.Policy.Allowlist.{
  Action, session, route, action_eq, Grant, Group, Allowlist, allows, lists,
}

pub data Outcome : Type 0 where
  deny allow confirm : Outcome

pub data Reason : Type 0 where
  no_rule is_revoked action_not_permitted allowed_by_rule allowed_by_group : Reason
  default_route_not_accepted default_route_needs_confirmation : Reason
  prefix_not_allowed nothing_routed not_routable : Reason

-- The rule that answered: the source writes "peer <key>" or "group <name>".
pub data Rule : Type 0 where
  none_matched : Rule
  peer_rule : ℕ → Rule
  group_rule : String → Rule

pub record Decision : Type 0 where
  pub outcome : Outcome
  pub reason : Reason
  pub allowed_ips : List Prefix
  pub rule : Rule

abbrev pub allowed : Decision → Bool
allowed d = elim d.outcome [ allow ↦ true | _ ↦ false ]

abbrev pub refuse : Reason → Rule → Decision
refuse reason rule = record { outcome = deny; reason = reason; allowed_ips = []; rule = rule }

abbrev pub no_prefixes : List Prefix → Bool
no_prefixes [] = true
no_prefixes (_ ∷ _) = false

unfoldable pub decide_from_grant : Grant → Action → Decision
unfolding allows
decide_from_grant g action =
    if g.revoked
    then refuse is_revoked (peer_rule g.peer)
    else if not (allows g action)
    then refuse action_not_permitted (peer_rule g.peer)
    else if no_prefixes g.allowed_ips && action_eq action session
    then refuse nothing_routed (peer_rule g.peer)
    else record {
      outcome = allow;
      reason = allowed_by_rule;
      allowed_ips = g.allowed_ips;
      rule = peer_rule g.peer;
    }

unfoldable pub decide_from_group : Group → Action → Decision
decide_from_group g action =
    if not (lists action g.actions)
    then refuse action_not_permitted (group_rule g.name)
    else if no_prefixes g.allowed_ips && action_eq action session
    then refuse nothing_routed (group_rule g.name)
    else record {
      outcome = allow;
      reason = allowed_by_group;
      allowed_ips = g.allowed_ips;
      rule = group_rule g.name;
    }

unfoldable pub is_member : Group → ℕ → Bool
is_member g peer = any (λ m. nat_eq m peer) g.members

-- The first group that holds the peer.
unfoldable pub decide_from_groups : List Group → ℕ → Action → Decision
unfolding is_member decide_from_group
decide_from_groups [] peer action = refuse no_rule none_matched
decide_from_groups (g ∷ gs) peer action =
    let later = decide_from_groups gs peer action in
    if not (is_member g peer) then later else decide_from_group g action

unfoldable pub decide : ℕ → Action → Allowlist → Decision
unfolding decide_from_grant decide_from_groups
decide peer action a = elim (lookup peer a.grants) [
  | some g ↦ decide_from_grant g action
  | none ↦ decide_from_groups a.groups peer action
]

unfoldable pub is_default_route : Prefix → Bool
is_default_route p = nat_eq p.bits_plus_one 1

unfoldable pub contains_prefix : List Prefix → Prefix → Bool
contains_prefix [] announced = false
contains_prefix (p ∷ ps) announced =
    (not (ltb announced.bits_plus_one p.bits_plus_one) && contains p (masked announced).addr)
    || contains_prefix ps announced

unfoldable pub decide_default_route : Decision → Allowlist → Decision
decide_default_route authorized a =
    if not a.accept_default_route
    then refuse default_route_not_accepted authorized.rule
    else record {
      outcome = confirm;
      reason = default_route_needs_confirmation;
      allowed_ips = [];
      rule = authorized.rule;
    }

unfoldable pub decide_route : ℕ → Prefix → Allowlist → Decision
unfolding is_default_route decide_default_route
decide_route peer prefix a =
    let d = decide peer route a in
    if not (allowed d)
    then d
    else if is_default_route prefix
    then decide_default_route d a
    else if not (contains_prefix d.allowed_ips prefix)
    then refuse prefix_not_allowed d.rule
    else record { outcome = allow; reason = d.reason; allowed_ips = prefix ∷ []; rule = d.rule }
