-- ===== src/Policy/Allowlist.antt =====
-- The allowlist and its grants (internal/policy/allowlist.go). A peer is the number that its key's
-- 32 bytes write, 0 for the unset key. The lock serialises the calls, and has no model.
use nostmesh.Base.{
  ℕ, String, Bool, true, false, not, List, [], ◌∷◌, ◌++◌, Option, none, some, nat_eq, if◌then◌else◌,
  any, ℕ_eq, string_eq, ◌==◌,
}
use nostmesh.Base.Map.{lookup, insert, delete}
use nostmesh.Base.Outcome.{Result, value, error}
use nostmesh.Net.{Prefix}

-- The three actions of the source; a Go string could be another, which no rule lists.
pub data Action : Type 0 where
  session route transit : Action

abbrev pub action_eq : Action → Action → Bool
action_eq session session = true
action_eq route route = true
action_eq transit transit = true
action_eq _ _ = false

pub data Error : Type 0 where
  not_authorized revoked no_peer no_action empty_group_name : Error

pub record Grant : Type 0 where
  pub peer : ℕ
  pub alias : String
  pub actions : List Action
  pub allowed_ips : List Prefix
  pub revoked : Bool

pub record Group : Type 0 where
  pub name : String
  pub members : List ℕ
  pub actions : List Action
  pub allowed_ips : List Prefix

pub record Allowlist : Type 0 where
  pub grants : List (ℕ × Grant)
  pub groups : List Group
  pub accept_default_route : Bool

abbrev pub lists : Action → List Action → Bool
lists action = any (λ a. action_eq a action)

unfoldable pub allows : Grant → Action → Bool
allows g action = if g.revoked then false else lists action g.actions

unfoldable pub new_allowlist : Allowlist
new_allowlist = record { grants = []; groups = []; accept_default_route = false }

unfoldable pub set_accept_default_route : Bool → Allowlist → Allowlist
set_accept_default_route accept a = record a { accept_default_route = accept }

abbrev pub no_actions : List Action → Bool
no_actions [] = true
no_actions (_ ∷ _) = false

unfoldable pub add : Grant → Allowlist → Result Error Allowlist
add g a =
    if nat_eq g.peer 0
    then error no_peer
    else if no_actions g.actions
    then error no_action
    else value (record a { grants = insert g.peer g a.grants })

unfoldable pub revoke : ℕ → Allowlist → Result Error Allowlist
revoke peer a = elim (lookup peer a.grants) [
  | none ↦ error not_authorized
  | some g ↦ value (record a { grants = insert peer (record g { revoked = true }) a.grants })
]

unfoldable pub remove : ℕ → Allowlist → Allowlist
remove peer a = record a { grants = delete peer a.grants }

unfoldable pub add_group : Group → Allowlist → Result Error Allowlist
add_group g a =
    if g.name == ""
    then error empty_group_name
    else value (record a { groups = a.groups ++ (g ∷ []) })

-- `Check`: none is Go's nil error.
unfoldable pub check : ℕ → Action → Allowlist → Option Error
unfolding allows
check peer action a = elim (lookup peer a.grants) [
  | none ↦ some not_authorized
  | some g ↦
      if g.revoked
      then some revoked
      else if not (allows g action)
      then some not_authorized
      else none
]

unfoldable pub authorize : ℕ → Allowlist → Option Error
unfolding check
authorize peer a = check peer session a
