-- ===== src/Policy/Authority.antt =====
-- Who may do what: denial by default, revocation, precedence, default routes.
use nostmesh.Base.{
  ℕ, ◌≡◌, ◌≢◌, ◌⊎◌, inl, inr, refl, true, false, List, [], ◌∷◌, none, some, arith, In, here, there,
  Bool-cases, Option-cases, ℕ_eq,
}
use nostmesh.Base.Map.{lookup, lookup-insert}
use nostmesh.Base.Outcome.{value}
use nostmesh.Net.{Prefix}
use nostmesh.Policy.Allowlist.{
  Action, route, Grant, Group, Allowlist, allows, lists, check, revoke, revoked,
}
use nostmesh.Policy.Decision.{
  allowed, decide, decide_route, decide_from_grant, decide_from_groups, decide_from_group,
  is_member, is_default_route, confirm,
}

-- The peer's own rule allows the action: present, not revoked, and with the action listed.
abbrev pub GrantedBy : Action → Grant → Type 0
GrantedBy action g = (g.revoked ≡ false) × (lists action g.actions ≡ true)

-- A group of the list holds the peer and lists the action.
abbrev pub CoveredBy : ℕ → Action → List Group → Type 0
CoveredBy peer action gs =
    (g : Group) × In g gs × (is_member g peer ≡ true) × (lists action g.actions ≡ true)

decide_from_groups-allowed :
    (gs : List Group) (peer : ℕ) (action : Action)
    → allowed (decide_from_groups gs peer action) ≡ true
    → CoveredBy peer action gs
unfolding decide_from_groups decide_from_group
decide_from_groups-allowed [] peer action h = absurd (ground arith)
decide_from_groups-allowed (g ∷ gs) peer action h = elim (Bool-cases (is_member g peer)) [
  | inl m ↦ (g, here refl, m, ground arith)
  | inr m ↦
      let (x, at, y, z) = decide_from_groups-allowed gs peer action (ground arith) in
      (x, there at, y, z)
]

-- An action is allowed only by a rule: the peer's own rule, which is not revoked and lists it, or,
-- for a peer with no rule of its own, a group that holds the peer and lists it.
pub decide-allowed :
    (peer : ℕ) (action : Action) (a : Allowlist)
    → allowed (decide peer action a) ≡ true
    → ((g : Grant) × (lookup peer a.grants ≡ some g) × GrantedBy action g)
      ⊎ ((lookup peer a.grants ≡ none) × CoveredBy peer action a.groups)
unfolding decide decide_from_grant allows
decide-allowed peer action a h = elim (Option-cases (lookup peer a.grants)) [
  | inl e ↦ inr (e, decide_from_groups-allowed a.groups peer action (ground arith))
  | inr (g, e) ↦ inl (g, e, (ground arith, ground arith))
]

-- A revocation that succeeds refuses every action of the peer, whatever the groups say, makes
-- `Check` name the revocation, and changes the decision about no other peer.
pub decide-revoke :
    (peer : ℕ) (a b : Allowlist) (action : Action) (other : ℕ)
    → revoke peer a ≡ value b
    → (allowed (decide peer action b) ≡ false)
      × (check peer action b ≡ some revoked)
      × ((other ≢ peer) → decide other action b ≡ decide other action a)
unfolding decide decide_from_grant revoke check
decide-revoke peer a b action other h = elim (Option-cases (lookup peer a.grants)) [
  | inl e ↦ absurd (ground arith)
  | inr (g, e) ↦
      let mine = lookup-insert peer peer (record g { revoked = true }) a.grants in
      let theirs = lookup-insert peer other (record g { revoked = true }) a.grants in
      (ground (arith, mine), ground (arith, mine), λ n. ground (arith, theirs))
]

decide_from_groups-ne-confirm :
    (gs : List Group) (peer : ℕ) (action : Action)
    → (decide_from_groups gs peer action).outcome ≢ confirm
unfolding decide_from_groups decide_from_group
decide_from_groups-ne-confirm [] peer action h = ground arith
decide_from_groups-ne-confirm (g ∷ gs) peer action h =
    ground (arith, decide_from_groups-ne-confirm gs peer action)

decide-ne-confirm :
    (peer : ℕ) (action : Action) (a : Allowlist) → (decide peer action a).outcome ≢ confirm
unfolding decide decide_from_grant
decide-ne-confirm peer action a h =
    ground (arith, decide_from_groups-ne-confirm a.groups peer action)

-- A default route is never allowed; a person is asked for it only if the operator accepts to be
-- asked and a rule lets the peer announce routes, and then always.
pub decide_route-default :
    (peer : ℕ) (p : Prefix) (a : Allowlist)
    → is_default_route p ≡ true
    → (allowed (decide_route peer p a) ≡ false)
      × ((decide_route peer p a).outcome ≡ confirm
          → (a.accept_default_route ≡ true) × (allowed (decide peer route a) ≡ true))
      × ((a.accept_default_route ≡ true)
          → allowed (decide peer route a) ≡ true
          → (decide_route peer p a).outcome ≡ confirm)
unfolding decide_route
decide_route-default peer p a h =
    (ground arith, ground (arith, decide-ne-confirm peer route a), ground arith)

-- A peer whose own rule allows an action passes `Check` for it.
pub check-decide :
    (peer : ℕ) (action : Action) (a : Allowlist) (g : Grant)
    → lookup peer a.grants ≡ some g
    → allowed (decide peer action a) ≡ true
    → check peer action a ≡ none
unfolding decide decide_from_grant check
check-decide peer action a g e h = ground arith
