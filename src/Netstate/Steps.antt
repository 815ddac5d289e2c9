-- ===== src/Netstate/Steps.antt =====
-- What each part of an application leaves as it was.
use nostmesh.Base.{
  ℕ, String, string_eq, ◌≡◌, inl, inr, Bool, false, List, [], ◌∷◌, filter, Option, some, arith,
  Option-cases,
}
use nostmesh.Base.Outcome.{Outcome, ok, err, ◌>>◌, final, M, value}
use nostmesh.Netstate.Journal.{
  OperationKind, create_interface, is_kind, OperationStatus, is_applied, Operation, OperationId,
  new_operation_id, Transaction, update_first, written, update_status,
}
use nostmesh.Netstate.Planning.{Failure, Texts}
use nostmesh.Netstate.Manager.{Work, save, maybe_inject}
use nostmesh.Wireguard.Port.{Controller}

-- A computation keeps what holds of the work, whether it succeeds or fails.
abbrev pub Keeps {κ} : {S : Type 0} → (Work S → Type κ) → M (Work S) Failure (Unit {0}) → Type κ
Keeps P m = (w : Work _) → P w → P (final (m w))

pub Keeps-then {κ} :
    {S : Type 0} (P : Work S → Type κ) (m k : M (Work S) Failure (Unit {0}))
    → Keeps P m
    → Keeps P k
    → Keeps P (m >> k)
Keeps-then P m k hm hk w p = go (m w) (hm w p)
  where
    go :
        (o : Outcome (Work _) Failure (Unit {0}))
        → P (final o)
        → P (final (elim o [ ok _ t ↦ k t | err e t ↦ err e t ]))
    go (ok _ t) q = hk t q
    go (err e t) q = q

-- What holds at the end: one thing of a success, another of each failure.
abbrev pub End :
    {S A : Type 0}
    → (Work S → Type 0)
    → (Failure → Work S → Type 0)
    → Outcome (Work S) Failure A
    → Type 0
End Q R (ok _ w) = Q w
End Q R (err f w) = R f w

abbrev pub Ends :
    {S : Type 0}
    → (Work S → Type 0)
    → (Work S → Type 0)
    → (Failure → Work S → Type 0)
    → M (Work S) Failure (Unit {0})
    → Type 0
Ends P Q R m = (w : Work _) → P w → End Q R (m w)

module _ {S : Type 0} (P Q : Work S → Type 0) where
  pub Ends-then :
      (T : Work S → Type 0) (R : Failure → Work S → Type 0) (m k : M (Work S) Failure (Unit {0}))
      → Ends P Q R m
      → Ends Q T R k
      → Ends P T R (m >> k)
  Ends-then T R m k hm hk w p = go (m w) (hm w p)
    where
      go :
          (o : Outcome (Work S) Failure (Unit {0}))
          → End Q R o
          → End T R (elim o [ ok _ t ↦ k t | err e t ↦ err e t ])
      go (ok _ t) q = hk t q
      go (err e t) q = q

pub Keeps-Ends :
    {S : Type 0} (P : Work S → Type 0) (R : Failure → Work S → Type 0)
    (m : M (Work S) Failure (Unit {0}))
    → Keeps P m
    → ((f : Failure) (w : Work S) → P w → R f w)
    → Ends P P R m
Keeps-Ends P R m hm weaker w p = go (m w) (hm w p)
  where
    go : (o : Outcome (Work _) Failure (Unit {0})) → P (final o) → End P R o
    go (ok _ t) q = q
    go (err e t) q = weaker e t q

-- Saving writes the disk, and touches neither the transaction in memory nor the host.
pub save-transaction :
    {S : Type 0} (text : Texts) (c : Controller S) (w : Work S)
    → ((final (save text c w)).transaction ≡ w.transaction)
      × ((final (save text c w)).host ≡ w.host)
unfolding save
save-transaction text c w = ground arith

pub maybe_inject-transaction :
    {S : Type 0} (text : Texts) (c : Controller S) (k : OperationKind) (w : Work S)
    → ((final (maybe_inject text c k w)).transaction ≡ w.transaction)
      × ((final (maybe_inject text c k w)).host ≡ w.host)
unfolding maybe_inject
maybe_inject-transaction text c k w = ground arith

-- The first operation creates the interface, which was not there before.
abbrev pub Created : String → List Operation → Type 0
Created n [] = ⊥
Created n (op ∷ ops) =
    (op.id ≡ new_operation_id create_interface n)
    × (op.kind ≡ create_interface)
    × (op.existed ≡ false)

abbrev pub head_applied : List Operation → Bool
head_applied [] = false
head_applied (op ∷ ops) = is_applied op.status

abbrev pub NoneApplied : List Operation → Type 0
NoneApplied ops = filter (λ op. is_applied op.status) ops ≡ []

-- A mark of another kind leaves the first operation alone.
pub update_first-Created :
    (n : String) (id : OperationId) (st : OperationStatus) (at : Option ℕ) (m : String)
    (ops ops' : List Operation)
    → is_kind create_interface id.kind ≡ false
    → update_first id st at m ops ≡ some ops'
    → Created n ops
    → Created n ops' × (head_applied ops' ≡ head_applied ops)
unfolding update_first
update_first-Created n id st at m [] ops' k h c = absurd (ground arith)
update_first-Created n id st at m (op ∷ ops) ops' k h c =
    elim (Option-cases (update_first id st at m ops)) [
      | inl e ↦ absurd (ground arith)
      | inr (rest, e) ↦ ground arith
    ]

-- A mark of the first operation is written there.
pub update_first-head :
    (n : String) (st : OperationStatus) (at : Option ℕ) (m : String) (ops : List Operation)
    → Created n ops
    → (ops' : List Operation) × (update_first (new_operation_id create_interface n) st at m ops
        ≡ some ops')
      × Created n ops'
      × (head_applied ops' ≡ is_applied st)
unfolding update_first
update_first-head n st at m [] c = elim c [ ]
update_first-head n st at m (op ∷ ops) c =
    (written st at m op ∷ ops, ground (arith, string_eq.beq_iff n n), ground arith, ground arith)

-- A mark other than `applied` applies nothing.
pub update_first-none :
    (id : OperationId) (st : OperationStatus) (at : Option ℕ) (m : String)
    (ops ops' : List Operation)
    → is_applied st ≡ false
    → update_first id st at m ops ≡ some ops'
    → NoneApplied ops
    → NoneApplied ops'
unfolding update_first
update_first-none id st at m [] ops' s h a = absurd (ground arith)
update_first-none id st at m (op ∷ ops) ops' s h a =
    elim (Option-cases (update_first id st at m ops)) [
      | inl e ↦ ground arith
      | inr (rest, e) ↦ ground (arith, update_first-none id st at m ops rest s e)
    ]

pub update_status-ok :
    (id : OperationId) (st : OperationStatus) (at : Option ℕ) (m : String) (t t' : Transaction)
    → update_status id st at m t ≡ value t'
    → (ops : List Operation) × (update_first id st at m t.operations ≡ some ops)
      × (t' ≡ record t { operations = ops })
unfolding update_status
update_status-ok id st at m t t' h = elim (Option-cases (update_first id st at m t.operations)) [
  | inl e ↦ absurd (ground arith)
  | inr (ops, e) ↦ (ops, e, ground arith)
]
