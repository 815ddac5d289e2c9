-- ===== src/Netstate/Journal.antt =====
-- A transaction and its operations (internal/netstate/journal.go).
use nostmesh.Base.{
  ℕ, String, string_eq, Bool, true, false, ◌&&◌, List, [], ◌∷◌, ◌++◌, any, filter, Option, none,
  some, is_some, nat_eq, if◌then◌else◌, ◌==◌,
}
use nostmesh.Base.Outcome.{Result, value, error}

pub data OperationKind : Type 0 where
  create_interface configure_interface add_address set_link_up apply_peer add_route : OperationKind

-- Go's `==` on kinds, by the constants' numbers.
abbrev pub kind_number : OperationKind → ℕ
kind_number create_interface = 0
kind_number configure_interface = 1
kind_number add_address = 2
kind_number set_link_up = 3
kind_number apply_peer = 4
kind_number add_route = 5

abbrev pub is_kind : OperationKind → OperationKind → Bool
is_kind k l = nat_eq (kind_number k) (kind_number l)

pub data OperationStatus : Type 0 where
  planned applying applied failed rolled_back : OperationStatus

abbrev pub is_applied : OperationStatus → Bool
is_applied applied = true
is_applied _ = false

abbrev pub is_applying : OperationStatus → Bool
is_applying applying = true
is_applying _ = false

-- The source writes "kind:target", which no other kind and target write, for no kind holds a colon.
pub record OperationId : Type 0 where
  pub kind : OperationKind
  pub target : String

abbrev pub id_eq : OperationId → OperationId → Bool
id_eq a b = is_kind a.kind b.kind && (a.target == b.target)

abbrev pub new_operation_id : OperationKind → String → OperationId
new_operation_id kind target = record { kind = kind; target = target }

-- The detail is a text for people, and is left out.
pub record Operation : Type 0 where
  pub id : OperationId
  pub kind : OperationKind
  pub target : String
  pub status : OperationStatus
  pub existed : Bool
  pub planned_at : ℕ
  pub applied_at : Option ℕ
  pub failure : String

pub record Transaction : Type 0 where
  pub id : String
  pub session_id : String
  pub interface : String
  pub operations : List Operation
  pub started_at : ℕ
  pub ended_at : Option ℕ
  pub committed : Bool

pub data Error : Type 0 where
  transaction_closed no_operation : Error

unfoldable pub new_transaction : String → String → ℕ → Transaction
new_transaction id iface now = record {
  id = id;
  session_id = "";
  interface = iface;
  operations = [];
  started_at = now;
  ended_at = none;
  committed = false;
}

unfoldable pub plan : Operation → ℕ → Transaction → Result Error Transaction
plan op now t =
    if is_some t.ended_at
    then error transaction_closed
    else value (record t {
      operations = t.operations ++ (record op { status = planned; planned_at = now } ∷ []);
    })

-- What `updateStatus` writes to the operation that it finds.
unfoldable pub written : OperationStatus → Option ℕ → String → Operation → Operation
written status at message op = record op {
  status = status;
  applied_at = if is_some at then at else op.applied_at;
  failure = if message == "" then op.failure else message;
}

-- The loop of `updateStatus`, none where no operation has the id.
unfoldable pub update_first :
    OperationId → OperationStatus → Option ℕ → String → List Operation → Option (List Operation)
unfolding written
update_first id status at message [] = none
update_first id status at message (op ∷ ops) =
    let later : Option (List Operation) = elim (update_first id status at message ops) [
      | none ↦ none
      | some ops' ↦ some (op ∷ ops')
    ] in
    if id_eq op.id id then some (written status at message op ∷ ops) else later

unfoldable pub update_status :
    OperationId → OperationStatus → Option ℕ → String → Transaction → Result Error Transaction
unfolding update_first
update_status id status at message t = elim (update_first id status at message t.operations) [
  | none ↦ error no_operation
  | some ops ↦ value (record t { operations = ops })
]

unfoldable pub mark_applying : OperationId → Transaction → Result Error Transaction
mark_applying id t = update_status id applying none "" t

unfoldable pub mark_applied : OperationId → ℕ → Transaction → Result Error Transaction
mark_applied id now t = update_status id applied (some now) "" t

-- The text of the cause is that of the error, which may be empty.
unfoldable pub mark_failed : OperationId → String → Transaction → Result Error Transaction
mark_failed id cause t = update_status id failed none cause t

unfoldable pub mark_rolled_back : OperationId → Transaction → Result Error Transaction
mark_rolled_back id t = update_status id rolled_back none "" t

unfoldable pub commit : ℕ → Transaction → Transaction
commit now t = record t { committed = true; ended_at = some now }

unfoldable pub close : ℕ → Transaction → Transaction
close now t = record t { ended_at = some now }

unfoldable pub applied_operations : Transaction → List Operation
applied_operations t = filter (λ op. is_applied op.status) t.operations

-- The applied operations, last first, after those that are to come.
unfoldable pub reversed_onto : List Operation → List Operation → List Operation
reversed_onto [] rest = rest
reversed_onto (op ∷ ops) rest = reversed_onto ops (op ∷ rest)

unfoldable pub compensation_order : Transaction → List Operation
unfolding reversed_onto applied_operations
compensation_order t = reversed_onto (applied_operations t) []

unfoldable pub needs_recovery : Transaction → Bool
needs_recovery t =
    if is_some t.ended_at then any (λ op. is_applying op.status) t.operations else true
