-- ===== src/Netstate/Ahead.antt =====
-- A step is on disk before it runs.
use nostmesh.Base.{
  List, [], ◌∷◌, ◌++◌, All, ◌≢◌, inl, inr, Bool-cases, Option-cases, string_eq, ◌≡◌, refl, ap,
  subst, ◌∙◌, true, none, some, arith,
}
use nostmesh.Base.Map.{lookup, lookup-insert}
use nostmesh.Base.Outcome.{Outcome, ok, err, ◌>>◌, Result, value, error}
use nostmesh.Wireguard.Port.{Controller}
use nostmesh.Netstate.Journal.{
  OperationId, Operation, id_eq, update_first, written, applying, Transaction, mark_applying,
  update_status, needs_recovery,
}
use nostmesh.Netstate.Journal
use nostmesh.Netstate.Store.{
  Write, done, lost, kept_unsynced, JournalStore, put, has_separator, write_atomic, load,
}
use nostmesh.Netstate.Store
use nostmesh.Netstate.Saved.{Wins, save-files}
use nostmesh.Netstate.Planning.{Texts, Failure, recording}
use nostmesh.Netstate.Manager.{Work, save, begin}
use nostmesh.Netstate.Steps.{update_status-ok}

abbrev Saved : Transaction → Outcome JournalStore Store.Error (Unit {0}) → Type 0
Saved t (ok _ j) = lookup t.id j.files ≡ some t
Saved t (err _ _) = Unit

lookup-put : (t : Transaction) (j : JournalStore) → lookup t.id (put t j) ≡ some t
lookup-put t j = ground (arith, lookup-insert t.id t.id t j.files, string_eq.beq_iff t.id t.id)

save-Saved : (t : Transaction) (j : JournalStore) → Saved t (Store.save t j)
unfolding Wins
save-Saved t j = go (Store.save t j) (save-files t j)
  where
    go :
        (o : Outcome JournalStore Store.Error (Unit {0}))
        → Wins (λ j'. j'.files ≡ put t j) o
        → Saved t o
    go (ok _ j') w = ap (lookup t.id) w ∙ lookup-put t j
    go (err _ _) w = tt

id_eq_sound : (a b : OperationId) → id_eq a b ≡ true → a ≡ b
id_eq_sound a b h = ground (arith, string_eq.beq_iff a.target b.target)

id_eq_refl : (a : OperationId) → id_eq a a ≡ true
id_eq_refl a = ground (arith, string_eq.beq_iff a.target a.target)

-- The first operation of an id becomes one that is being applied, and nothing else changes.
pub record Applying (id : OperationId) (t t' : Transaction) : Type 0 where
  pub before : List Operation
  pub step : Operation
  pub after : List Operation
  pub named : step.id ≡ id
  pub first : All (λ op. op.id ≢ id) before
  pub stood : t.operations ≡ before ++ (step ∷ after)
  pub stands : t' ≡ record t { operations = before ++ (record step { status = applying } ∷ after) }

abbrev Split : OperationId → List Operation → List Operation → Type 0
Split id ops ops' =
    (before : List Operation) × (step : Operation) × (after : List Operation) × (step.id ≡ id)
    × All (λ op. op.id ≢ id) before
    × (ops ≡ before ++ (step ∷ after))
    × (ops' ≡ before ++ (record step { status = applying } ∷ after))

update_first-Split :
    (id : OperationId) (ops ops' : List Operation)
    → update_first id applying none "" ops ≡ some ops'
    → Split id ops ops'
unfolding update_first written
update_first-Split id [] ops' h = absurd (ground arith)
update_first-Split id (op ∷ ops) ops' h = elim (Bool-cases (id_eq op.id id)) [
  | inl e ↦ ([], op, ops, id_eq_sound op.id id e, tt, refl, ground arith)
  | inr e ↦ elim (Option-cases (update_first id applying none "" ops)) [
    | inl x ↦ absurd (ground arith)
    | inr (rest, x) ↦
        let (before, step, after, named, first, stood, stands) = update_first-Split id ops rest x in
        let other : op.id ≢ id = λ p.
          let same : id_eq op.id id ≡ true = rw p (id_eq_refl id) in
          absurd (ground (arith, same)) in
        (
          op ∷ before,
          step,
          after,
          named,
          (other, first),
          ap (λ l. op ∷ l) stood,
          ground (arith, stands),
        )
  ]
]

mark_applying-Applying :
    (id : OperationId) (t t' : Transaction) → mark_applying id t ≡ value t' → Applying id t t'
unfolding mark_applying
mark_applying-Applying id t t' h =
    let (ops, hit, same) = update_status-ok id applying none "" t t' h in
    let (before, step, after, named, first, stood, stands) =
      update_first-Split id t.operations ops hit in
    record {
      before = before;
      step = step;
      after = after;
      named = named;
      first = first;
      stood = stood;
      stands = same ∙ ap (λ l. record t { operations = l }) stands;
    }

-- What `begin` leaves: the transaction marked, as it can be loaded, open, and the host untouched.
pub record Recorded {S : Type 0} (id : OperationId) (w w' : Work S) (j : JournalStore)
    : Type 0 where
  pub on_disk : w'.journal ≡ some j
  pub marked : Applying id w.transaction w'.transaction
  pub loaded : load w'.transaction.id j ≡ value w'.transaction
  pub unfinished : needs_recovery w'.transaction ≡ true
  pub untouched : w'.host ≡ w.host

mark_applying-unfinished :
    (id : OperationId) (t t' : Transaction)
    → t.ended_at ≡ none
    → mark_applying id t ≡ value t'
    → needs_recovery t' ≡ true
unfolding mark_applying needs_recovery
mark_applying-unfinished id t t' e h =
    let (ops, hit, same) = update_status-ok id applying none "" t t' h in rw (same, e)

module _ (text : Texts) {S : Type 0} (c : Controller S) where
  -- When a step has begun and its call has yet to run, its operation, which is the first of its id
  -- in the transaction, has the status of one that is being applied, and no other operation or field
  -- of the transaction has changed; the journal on disk holds that transaction, which is in need of
  -- recovery, and the host is as it was. The transaction is open and there is a journal.
  pub begin-Recorded :
      (id : OperationId) (w w' : Work S) (j : JournalStore)
      → w.journal ≡ some j
      → w.transaction.ended_at ≡ none
      → begin text c id w ≡ ok tt w'
      → (j' : JournalStore) × Recorded id w w' j'
  unfolding begin save load
  begin-Recorded id w w' j there open_yet h = go (mark_applying id w.transaction) refl
    where
      saved :
          (t : Transaction)
          → mark_applying id w.transaction ≡ value t
          → (o : Outcome JournalStore Store.Error (Unit {0})) → Saved t o
          → elim o as (λ _. Outcome (Work S) Failure (Unit {0})) [
            | ok _ j' ↦ ok tt (record w { transaction = t; journal = some j' })
            | err e j' ↦ err (recording e) (record w { transaction = t; journal = some j' })
          ]
            ≡ ok tt w'
          → (j' : JournalStore) × Recorded id w w' j'
      saved t m (err e j') s k = absurd (ground arith)
      saved t m (ok _ j') s k =
          let same : record w { transaction = t; journal = some j' } ≡ w' =
            ap (λ o. elim o [ ok _ v ↦ v | err _ v ↦ v ]) k in
          (
            j',
            subst (λ v. Recorded id w v j') same
                (record {
                  on_disk = refl;
                  marked = mark_applying-Applying id w.transaction t m;
                  loaded = rw (s, load);
                  unfinished = mark_applying-unfinished id w.transaction t open_yet m;
                  untouched = refl;
                }),
          )

      go :
          (r : Result Journal.Error Transaction)
          → mark_applying id w.transaction ≡ r
          → (j' : JournalStore) × Recorded id w w' j'
      go (error e) m = absurd (ground arith)
      go (value t) m =
          saved t m (Store.save t j) (save-Saved t j) (rw (m, there, begin, save, ◌>>◌) at h)
