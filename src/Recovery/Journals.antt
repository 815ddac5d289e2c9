-- ===== src/Recovery/Journals.antt =====
-- What is left in the journal when `Down` or `Recover` returns (internal/orchestrator/reconcile.go).
use nostmesh.Base.{
  ℕ, String, string_eq, ◌≡◌, sym, ap, subst, ◌∙◌, Bool, true, false, ◌||◌, List, [], ◌∷◌, map, any,
  All, Option, none, some, if◌then◌else◌, arith, Bool-cases, inl, inr, ◌==◌, filter,
}
use nostmesh.Base.Map.{lookup, lookup-insert}
use nostmesh.Base.Outcome.{Outcome, ok, err, Result, value, error}
use nostmesh.Netstate.Journal.{Transaction, close, needs_recovery}
use nostmesh.Netstate.Saved.{Wins, save-files}
use nostmesh.Netstate.Store.{
  Write, no_journal, has_separator, JournalStore, put, done, lost, kept_unsynced, write_atomic,
  save, load, list, pending_recovery,
}
use nostmesh.Netstate.Store
use nostmesh.Wireguard.Port.{Controller, Error}
use nostmesh.Recovery.Reconcile.{
  Failure, recording, close_all, Reconciliation, nothing_done, host_failed, Node, reconcile_journal,
  clear_host, down,
}
use nostmesh.Recovery.Marks.{DistinctIds, Closed, mark_all-Closed}

-- A transaction as `load` gives it: it stands under its id, and no two operations have one id.
pub record Filed (e : String × Transaction) : Type 0 where
  pub named : e.1.id ≡ e.0
  pub distinct : DistinctIds e.1.operations

-- Every transaction under the id is closed, or is among those to come.
Covered : String → List Transaction → JournalStore → Type 0
Covered id ts j =
    (x : Transaction)
    → lookup id j.files ≡ some x
    → needs_recovery x ≡ true
    → any (λ t. t.id == id) ts ≡ true

any-if {ℓ} :
    {A : Type ℓ} (p : A → Bool) (b : Bool) (a : A) (rest : List A)
    → any p rest ≡ true
    → any p (if b then a ∷ rest else rest) ≡ true
any-if p b a rest h = ground arith

lookup-pending :
    (id : String) (files : List (String × Transaction)) (x : Transaction)
    → All Filed files
    → lookup id files ≡ some x
    → needs_recovery x ≡ true
    → any (λ t. t.id == id) (filter needs_recovery (map (λ e. e.1) files)) ≡ true
lookup-pending id [] x f h n = ground arith
lookup-pending id ((k, t) ∷ files) x f h n = elim (Bool-cases (k == id)) [
  | inl e ↦
      let found : t ≡ x = ap (λ o. elim o [ none ↦ t | some y ↦ y ]) (rw e at h) in
      let pending : needs_recovery t ≡ true = ap needs_recovery found ∙ n in
      let key : (t.id == id) ≡ true = ap (λ s. s == id) f.0.named ∙ e in rw (pending, key)
  | inr e ↦
      let later = lookup-pending id files x f.1 (rw e at h) n in
      any-if (λ u. u.id == id) (needs_recovery t) t _ later
]

-- Under the id, no transaction is left to recover.
pub Recovered : String → JournalStore → Type 0
Recovered id j = (x : Transaction) → lookup id j.files ≡ some x → needs_recovery x ≡ false

module _ (id : String) (now : ℕ) where
  covers_next :
      (t m : Transaction) (ts : List Transaction) (j j' : JournalStore)
      → m.id ≡ t.id
      → needs_recovery (close now m) ≡ false
      → j'.files ≡ put (close now m) j
      → Covered id (t ∷ ts) j
      → Covered id ts j'
  unfolding Covered close
  covers_next t m ts j j' same ends files cov x h n =
      let got : (if m.id == id then some (close now m) else lookup id j.files) ≡ some x =
        sym (lookup-insert m.id id (close now m) j.files) ∙ ap (lookup id) (sym files) ∙ h in
      elim (Bool-cases (t.id == id)) [
        | inl e ↦
            let key : (m.id == id) ≡ true = ap (λ s. s == id) same ∙ e in
            let found : some (close now m) ≡ some x = rw key at got in
            let closed : close now m ≡ x = ap (λ o. elim o [ none ↦ x | some y ↦ y ]) found in
            let open_ : needs_recovery (close now m) ≡ true = ap needs_recovery closed ∙ n in
            absurd (ground arith)
        | inr e ↦
            let key : (m.id == id) ≡ false = ap (λ s. s == id) same ∙ e in
            let held : lookup id j.files ≡ some x = rw key at got in
            let named : ((t.id == id) || any (λ u. u.id == id) ts) ≡ true = cov x held n in
            rw e at named
      ]

  close_all-Covered :
      (ts : List Transaction) (j : JournalStore)
      → All (λ t. DistinctIds t.operations) ts
      → Covered id ts j
      → Wins (Covered id []) (close_all ts now j)
  unfolding close_all Wins
  close_all-Covered [] j d cov = cov
  close_all-Covered (t ∷ ts) j d cov =
      let cl : Closed now t = mark_all-Closed now t d.0 in
      rw (cl.marks, Wins, close_all)
        (saved (λ j' c. close_all-Covered ts j' d.1 c) (save (close now cl.marked) j)
          (save-files (close now cl.marked) j))
    where
      m : Transaction
      m = (mark_all-Closed now t d.0).marked

      rest :
          (o : Outcome JournalStore Failure (List Transaction))
          → Wins (Covered id []) o
          → Wins (Covered id []) (elim o as (λ _. Outcome JournalStore Failure (List Transaction)) [
            | err e j'' ↦ err e j''
            | ok closed j'' ↦ ok (close now m ∷ closed) j''
          ])
      rest (ok _ _) w = w
      rest (err _ _) w = tt

      saved :
          ((j' : JournalStore) → Covered id ts j' → Wins (Covered id []) (close_all ts now j'))
          → (o : Outcome JournalStore Store.Error (Unit {0}))
          → Wins (λ j'. j'.files ≡ put (close now m) j) o
          → Wins (Covered id []) (elim o as (λ _. Outcome JournalStore Failure (List Transaction)) [
            | err e j' ↦ err (recording e) j'
            | ok _ j' ↦
                elim (close_all ts now j')
                  as (λ _. Outcome JournalStore Failure (List Transaction)) [
                    | err e j'' ↦ err e j''
                    | ok closed j'' ↦ ok (close now m ∷ closed) j''
                  ]
          ])
      saved go (err _ _) w = tt
      saved go (ok _ j') w =
          let cl : Closed now t = mark_all-Closed now t d.0 in
          rest (close_all ts now j') (go j' (covers_next t m ts j j' cl.keeps cl.ends w cov))

pending-Distinct :
    (files : List (String × Transaction))
    → All Filed files
    → All (λ t. DistinctIds t.operations) (filter needs_recovery (map (λ e. e.1) files))
pending-Distinct [] f = tt
pending-Distinct (e ∷ files) f = elim (Bool-cases (needs_recovery e.1)) [
  | inl p ↦ rw p (f.0.distinct, pending-Distinct files f.1)
  | inr p ↦ rw p (pending-Distinct files f.1)
]

reconcile_journal-Wins :
    {S : Type 0} (r : Reconciliation) (now : ℕ) (n : Node S) (id : String)
    → All Filed n.journal.files
    → Wins (λ n'. Recovered id n'.journal) (reconcile_journal r now n)
unfolding reconcile_journal Wins Covered pending_recovery list Recovered
reconcile_journal-Wins {S} r now n id f =
    go (close_all (pending_recovery n.journal) now n.journal) (
      close_all-Covered id now (pending_recovery n.journal) n.journal
        (pending-Distinct n.journal.files f) (λ x l p. lookup-pending id n.journal.files x f l p))
  where
    go :
        (o : Outcome JournalStore Failure (List Transaction))
        → Wins (Covered id []) o
        → Wins
            (λ n'. Recovered id n'.journal)
            (elim o as (λ _. Outcome (Node S) Failure Reconciliation) [
              | err e j ↦ err e (record n { journal = j })
              | ok closed j ↦ ok (record r { interrupted = closed }) (record n { journal = j })
            ])
    go (err _ _) w = tt
    go (ok _ j) w = λ x l. elim (Bool-cases (needs_recovery x)) [
      | inl p ↦ absurd (ground (arith, w x l p))
      | inr p ↦ p
    ]

module _ {S : Type 0} (c : Controller S) where
  down-Wins :
      (now : ℕ) (n : Node S) (id : String)
      → All Filed n.journal.files
      → Wins (λ n'. Recovered id n'.journal) (down c now n)
  unfolding down Wins
  down-Wins now n id f = go (clear_host c true nothing_done n.host)
    where
      go :
          (o : Outcome S Error Reconciliation)
          → Wins
              (λ n'. Recovered id n'.journal)
              (elim o as (λ _. Outcome (Node S) Failure Reconciliation) [
                | err e s ↦ err (host_failed e) (record n { host = s })
                | ok r s ↦ reconcile_journal r now (record n { host = s })
              ])
      go (err _ _) = tt
      go (ok r s) = reconcile_journal-Wins r now (record n { host = s }) id f

  -- When `Down` succeeds, whatever the host is, no transaction that can be loaded needs recovery,
  -- if every file holds the transaction it is named for, with no two operations of one id.
  pub down_settles_journal :
      (now : ℕ) (n n' : Node S) (r : Reconciliation) (id : String) (t : Transaction)
      → All Filed n.journal.files
      → down c now n ≡ ok r n'
      → load id n'.journal ≡ value t
      → needs_recovery t ≡ false
  unfolding Wins Recovered load
  down_settles_journal now n n' r id t f d l =
      subst (Wins (λ m. Recovered id m.journal)) d (down-Wins now n id f) t
        (load-lookup (lookup id n'.journal.files) l)
    where
      load-lookup :
          (o : Option Transaction)
          → elim o as (λ _. Result Store.Error Transaction) [
            | none ↦ error no_journal
            | some x ↦ value x
          ]
            ≡ value t
          → o ≡ some t
      load-lookup none e = absurd (ground (arith, e))
      load-lookup (some x) e = ap some (ap (λ v. elim v [ error _ ↦ t | value y ↦ y ]) e)
