-- ===== src/Policy/Router.antt =====
-- The pipeline of an announced route (internal/policy/routing.go).
use nostmesh.Base.{
  ℕ, Bool, false, not, List, [], ◌∷◌, ◌++◌, Option, none, some, if◌then◌else◌, any, ◌==◌,
}
use nostmesh.Net.{Prefix, prefix_eq}
use nostmesh.Routes.Table.{Route, RouteTable, announced, offer, withdraw, withdraw_provider, expire}
use nostmesh.Routes.Select.{select}
use nostmesh.Policy.Allowlist.{Allowlist}
use nostmesh.Policy.Decision.{Reason, Rule, none_matched, not_routable, decide_route, allowed}
use nostmesh.Policy.Admission.{LocalNetwork, Refusal, admit_route}

pub record RouteOutcome : Type 0 where
  pub prefix : Prefix
  pub accepted : Bool
  pub reason : Reason
  pub rule : Rule
  pub detail : Option Refusal

pub record Router : Type 0 where
  pub allowlist : Allowlist
  pub table : RouteTable
  pub here : LocalNetwork

unfoldable pub local_network : LocalNetwork → Router → Router
local_network here r = record r { here = here }

-- One announced prefix: its outcome, and the table afterwards.
unfoldable pub announce_one : ℕ → Route → Router → RouteOutcome × Router
announce_one provider route r = elim (admit_route route.prefix r.here) [
  | some refusal ↦ (
    record {
      prefix = route.prefix;
      accepted = false;
      reason = not_routable;
      rule = none_matched;
      detail = some refusal;
    },
    r,
  )
  | none ↦
      let d = decide_route provider route.prefix r.allowlist in
      let (accepted, table) =
        offer (record route { provider = provider; source = announced }) r.table in
      if not (allowed d)
      then (
        record {
          prefix = route.prefix;
          accepted = false;
          reason = d.reason;
          rule = d.rule;
          detail = none;
        },
        r,
      )
      else (
        record {
          prefix = route.prefix;
          accepted = accepted;
          reason = d.reason;
          rule = d.rule;
          detail = none;
        },
        record r { table = table },
      )
]

unfoldable pub announce : ℕ → List Route → Router → List RouteOutcome × Router
announce provider [] r = ([], r)
announce provider (route ∷ routes) r =
    let (outcome, r') = announce_one provider route r in
    let (outcomes, r'') = announce provider routes r' in (outcome ∷ outcomes, r'')

unfoldable pub withdraw_prefixes : ℕ → List Prefix → Router → Router
withdraw_prefixes provider [] r = r
withdraw_prefixes provider (p ∷ ps) r =
    withdraw_prefixes provider ps (record r { table = withdraw p provider r.table })

unfoldable pub disconnect : ℕ → Router → Router
disconnect provider r = record r { table = withdraw_provider provider r.table }

unfoldable pub contains_exactly : List Prefix → Prefix → Bool
contains_exactly ps wanted = any (λ p. p == wanted) ps

-- The expired destinations that are not yet listed.
unfoldable pub add_missing : List Prefix → List Prefix → List Prefix
unfolding contains_exactly
add_missing remove [] = remove
add_missing remove (p ∷ ps) =
    add_missing (if contains_exactly remove p then remove else remove ++ (p ∷ [])) ps

unfoldable pub reconcile : ℕ → Router → (List Route × List Prefix) × Router
unfolding add_missing
reconcile now r =
    let (expired, table) = expire now r.table in
    let ((install, remove), table') = select now table in
    ((install, add_missing remove expired), record r { table = table' })
