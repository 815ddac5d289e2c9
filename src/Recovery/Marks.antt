-- ===== src/Recovery/Marks.antt =====
-- Closing a transaction leaves nothing of it to recover.
use nostmesh.Base.{
  append_assoc, ℕ, String, string_eq, ◌≡◌, refl, sym, ap, ◌∙◌, Bool, true, false, List, [], ◌∷◌,
  ◌++◌, map, any, Option, none, some, if◌then◌else◌, arith, Bool-cases, inl, inr,
}
use nostmesh.Base.Outcome.{value}
use nostmesh.Netstate.Journal.{
  OperationId, id_eq, OperationStatus, rolled_back, is_applying, Operation, Transaction,
  update_first, update_status, written, mark_rolled_back, close, needs_recovery,
}
use nostmesh.Recovery.Reconcile.{may_have_run, mark_all}

abbrev pub names : OperationId → List Operation → Bool
names id = any (λ op. id_eq op.id id)

-- No two operations have one id.
abbrev pub DistinctIds : List Operation → Type 0
DistinctIds [] = Unit
DistinctIds (op ∷ ops) = (names op.id ops ≡ false) × DistinctIds ops

id_eq_refl : (id : OperationId) → id_eq id id ≡ true
id_eq_refl id = ground (arith, string_eq.beq_iff id.target id.target)

id_eq_sym : (a b : OperationId) → id_eq a b ≡ id_eq b a
id_eq_sym a b =
    ground (arith, string_eq.beq_iff a.target b.target, string_eq.beq_iff b.target a.target)

-- What the loop does to one operation.
abbrev rolled : Operation → Operation
rolled op = if may_have_run op then written rolled_back none "" op else op

update_first-append :
    (id : OperationId) (st : OperationStatus) (at : Option ℕ) (m : String) (op : Operation)
    (done rest : List Operation)
    → names id done ≡ false
    → id_eq op.id id ≡ true
    → update_first id st at m (done ++ (op ∷ rest)) ≡ some (done ++ (written st at m op ∷ rest))
unfolding update_first
update_first-append id st at m op [] rest d e = ground arith
update_first-append id st at m op (x ∷ done) rest d e =
    ground (arith, update_first-append id st at m op done rest)

-- No operation of the second list has an id that the first one names.
Apart : List Operation → List Operation → Type 0
Apart done [] = Unit
Apart done (op ∷ ops) = (names op.id done ≡ false) × Apart done ops

names-append :
    (id : OperationId) (done : List Operation) (op : Operation)
    → names id done ≡ false
    → id_eq op.id id ≡ false
    → names id (done ++ (op ∷ [])) ≡ false
names-append id [] op d e = ground arith
names-append id (x ∷ done) op d e = ground (arith, names-append id done op)

Apart-append :
    (done : List Operation) (op : Operation) (ops : List Operation)
    → names op.id ops ≡ false
    → Apart done ops
    → Apart (done ++ (op ∷ [])) ops
unfolding Apart
Apart-append done op [] n h = tt
Apart-append done op (x ∷ ops) n h = (
  names-append x.id done op h.0 (id_eq_sym op.id x.id ∙ ground arith),
  Apart-append done op ops (ground arith) h.1,
)

Apart-nil : (ops : List Operation) → Apart [] ops
unfolding Apart
Apart-nil [] = tt
Apart-nil (op ∷ ops) = (refl, Apart-nil ops)

mark_rolled_back-found :
    (op : Operation) (done rest : List Operation) (t : Transaction)
    → names op.id done ≡ false
    → t.operations ≡ done ++ (op ∷ rest)
    → mark_rolled_back op.id t
      ≡ value (record t { operations = done ++ (written rolled_back none "" op ∷ rest) })
unfolding mark_rolled_back update_status
mark_rolled_back-found op done rest t d h =
    let found : update_first op.id rolled_back none "" t.operations
        ≡ some (done ++ (written rolled_back none "" op ∷ rest)) =
      ap (update_first op.id rolled_back none "") h
      ∙ update_first-append op.id rolled_back none "" op done rest d (id_eq_refl op.id) in
    rw (found, mark_rolled_back, update_status)

-- The loop, with the operations that it has passed.
mark_all-from :
    (done rest : List Operation) (t : Transaction)
    → t.operations ≡ done ++ rest
    → DistinctIds rest
    → Apart done rest
    → mark_all rest t ≡ value (record t { operations = done ++ map rolled rest })
unfolding mark_all Apart written
mark_all-from done [] t h d a = ap (λ ops. value (record t { operations = ops })) h
mark_all-from done (op ∷ rest) t h d a =
    let w : Operation = written rolled_back none "" op in
    let t' : Transaction = record t { operations = done ++ (w ∷ rest) } in
    let marks : mark_rolled_back op.id t ≡ value t' = mark_rolled_back-found op done rest t a.0 h in
    let marked : mark_all rest t'
        ≡ value (record t' { operations = (done ++ (w ∷ [])) ++ map rolled rest }) =
      mark_all-from (done ++ (w ∷ [])) rest t' (sym (append_assoc done w rest)) d.1
        (Apart-append done w rest d.0 a.1) in
    let skipped : mark_all rest t
        ≡ value (record t { operations = (done ++ (op ∷ [])) ++ map rolled rest }) =
      mark_all-from (done ++ (op ∷ [])) rest t (h ∙ sym (append_assoc done op rest)) d.1
        (Apart-append done op rest d.0 a.1) in
    elim (Bool-cases (may_have_run op)) [
      | inl m ↦ rw (m, marks, marked, append_assoc done w (map rolled rest))
      | inr m ↦ rw (m, skipped, append_assoc done op (map rolled rest))
    ]

none_applying : (ops : List Operation) → any (λ op. is_applying op.status) (map rolled ops) ≡ false
unfolding written
none_applying [] = refl
none_applying (op ∷ ops) = ground (arith, none_applying ops)

-- A transaction is closed for good: every mark is made, and nothing is left to recover.
pub record Closed (now : ℕ) (t : Transaction) : Type 0 where
  pub marked : Transaction
  pub marks : mark_all t.operations t ≡ value marked
  pub keeps : marked.id ≡ t.id
  pub ends : needs_recovery (close now marked) ≡ false

pub mark_all-Closed : (now : ℕ) (t : Transaction) → DistinctIds t.operations → Closed now t
unfolding needs_recovery close
mark_all-Closed now t d = record {
  marked = record t { operations = map rolled t.operations };
  marks = mark_all-from [] t.operations t refl d (Apart-nil t.operations);
  keeps = refl;
  ends = none_applying t.operations;
}
