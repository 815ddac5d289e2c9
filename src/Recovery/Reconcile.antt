-- ===== src/Recovery/Reconcile.antt =====
-- `Down`, `Recover` and what they share (internal/orchestrator/reconcile.go). The clock's reading
-- is an argument.
use nostmesh.Base.{ℕ, String, Bool, true, false, not, ◌||◌, List, [], ◌∷◌, ◌++◌, if◌then◌else◌}
use nostmesh.Base.Outcome.{Outcome, ok, err, Result, value, error}
use nostmesh.Wireguard.Port.{Controller, owns_interface, Error, interface_not_found}
use nostmesh.Netstate.Journal.{
  is_applied, is_applying, Operation, Transaction, mark_rolled_back, close,
}
use nostmesh.Netstate.Journal
use nostmesh.Netstate.Store.{JournalStore, save, pending_recovery}
use nostmesh.Netstate.Store

-- The source's transactions are shared, so that those listed as interrupted show what was done to
-- them.
pub record Reconciliation : Type 0 where
  pub interrupted : List Transaction
  pub removed : List String
  pub kept : List String

abbrev pub nothing_done : Reconciliation
nothing_done = record { interrupted = []; removed = []; kept = [] }

pub data Failure : Type 0 where
  host_failed : Error → Failure
  marking : Journal.Error → Failure
  recording : Store.Error → Failure

-- The host, and the journal on disk.
pub record Node (S : Type 0) : Type 0 where
  pub host : S
  pub journal : JournalStore

-- An operation that reached the kernel, or may have.
abbrev pub may_have_run : Operation → Bool
may_have_run op = is_applied op.status || is_applying op.status

-- The inner loop of `reconcileJournal`. A mark changes no operation that comes later in the list.
unfoldable pub mark_all : List Operation → Transaction → Result Journal.Error Transaction
mark_all [] t = value t
mark_all (op ∷ ops) t =
    let skip = mark_all ops t in
    let marked : Result Journal.Error Transaction = elim (mark_rolled_back op.id t) [
      | error e ↦ error e
      | value t' ↦ mark_all ops t'
    ] in
    if may_have_run op then marked else skip

-- The loop over the pending transactions: those that are closed so far, and the store.
unfoldable pub close_all :
    List Transaction → ℕ → JournalStore → Outcome JournalStore Failure (List Transaction)
unfolding mark_all
close_all [] now j = ok [] j
close_all (t ∷ ts) now j = elim (mark_all t.operations t) [
  | error e ↦ err (marking e) j
  | value t' ↦ elim (save (close now t') j) [
    | err e j' ↦ err (recording e) j'
    | ok _ j' ↦ elim (close_all ts now j') [
      | err e j'' ↦ err e j''
      | ok closed j'' ↦ ok (close now t' ∷ closed) j''
    ]
  ]
]

-- The journal can always be listed, for a file that cannot be read is left out.
unfoldable pub reconcile_journal :
    {S : Type 0} → Reconciliation → ℕ → Node S → Outcome (Node S) Failure Reconciliation
unfolding close_all
reconcile_journal r now n = elim (close_all (pending_recovery n.journal) now n.journal) [
  | err e j ↦ err e (record n { journal = j })
  | ok closed j ↦ ok (record r { interrupted = closed }) (record n { journal = j })
]

module _ {S : Type 0} (c : Controller S) where
  unfoldable pub remove_one : String → S → Outcome S Error Bool
  remove_one name s = elim (c.observe_interface name s) [
    | err interface_not_found t ↦ ok false t
    | err e t ↦ err e t
    | ok observed t ↦
        if not (owns_interface observed.name)
        then ok false t
        else elim (c.remove_interface name t) [
          | err interface_not_found u ↦ ok false u
          | err e u ↦ err e u
          | ok _ u ↦ ok true u
        ]
  ]

  -- The loop over the names; what was not removed is noted by `Down` only.
  unfoldable pub remove_all :
      Bool → List String → Reconciliation → S → Outcome S Error Reconciliation
  unfolding remove_one
  remove_all notes [] r s = ok r s
  remove_all notes (name ∷ names) r s = elim (remove_one name s) [
    | err e t ↦ err e t
    | ok true t ↦ remove_all notes names (record r { removed = r.removed ++ (name ∷ []) }) t
    | ok false t ↦
        remove_all notes names (if notes then record r { kept = r.kept ++ (name ∷ []) } else r) t
  ]

  unfoldable pub clear_host : Bool → Reconciliation → S → Outcome S Error Reconciliation
  unfolding remove_all
  clear_host notes r s = elim (c.list_owned_interfaces s) [
    | err e t ↦ err e t
    | ok owned t ↦ remove_all notes owned r t
  ]

  unfoldable pub down : ℕ → Node S → Outcome (Node S) Failure Reconciliation
  unfolding clear_host reconcile_journal
  down now n = elim (clear_host true nothing_done n.host) [
    | err e s ↦ err (host_failed e) (record n { host = s })
    | ok r s ↦ reconcile_journal r now (record n { host = s })
  ]

  abbrev pub is_empty : List Transaction → Bool
  is_empty [] = true
  is_empty (_ ∷ _) = false

  unfoldable pub recover : ℕ → Node S → Outcome (Node S) Failure Reconciliation
  unfolding clear_host reconcile_journal
  recover now n =
      let go_on : Outcome (Node S) Failure Reconciliation =
        elim (clear_host false nothing_done n.host) [
          | err e s ↦ err (host_failed e) (record n { host = s })
          | ok r s ↦ reconcile_journal r now (record n { host = s })
        ] in
      if is_empty (pending_recovery n.journal) then ok nothing_done n else go_on
