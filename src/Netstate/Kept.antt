-- ===== src/Netstate/Kept.antt =====
-- What every step keeps of an interface that was there before an application.
use nostmesh.Base.{
  ℕ, String, string_eq, ◌≡◌, inl, inr, refl, false, not, ◌&&◌, List, [], ◌∷◌, ◌++◌, Option, none,
  some, arith, Option-cases, All,
}
use nostmesh.Base.Outcome.{Outcome, ok, err, ◌>>◌, final, Result, value, error}
use nostmesh.Wireguard.Port.{
  Controller, Call, InterfaceSpec, InterfaceState, PeerSpec, interface_not_found, peer_not_found,
  not_owned, other,
}
use nostmesh.Wireguard.Port
use nostmesh.Wireguard.Laws.{KeepsInterface}
use nostmesh.Netstate.Journal.{
  OperationKind, create_interface, configure_interface, add_address, set_link_up, apply_peer,
  add_route, is_kind, OperationStatus, is_applied, Operation, OperationId, new_operation_id,
  Transaction, update_first, update_status, mark_applying, mark_applied, mark_failed,
  mark_rolled_back, applied_operations, compensation_order, reversed_onto, commit, close,
  new_transaction, plan, written,
}
use nostmesh.Netstate.Journal
use nostmesh.Netstate.Planning.{Texts, Failure}
use nostmesh.Netstate.Manager.{Work, save, mark, begin, complete, maybe_inject, call, apply_step}
use nostmesh.Netstate.Steps.{
  Keeps, Keeps-then, save-transaction, maybe_inject-transaction, update_status-ok,
}

-- The operation did not create an interface.
abbrev pub FoundOperation : Operation → Type 0
FoundOperation op = (is_kind op.kind create_interface && not op.existed) ≡ false

pub update_first-Found :
    (id : OperationId) (st : OperationStatus) (at : Option ℕ) (m : String)
    (ops ops' : List Operation)
    → update_first id st at m ops ≡ some ops'
    → All FoundOperation ops
    → All FoundOperation ops'
unfolding update_first
update_first-Found id st at m [] ops' h a = absurd (ground arith)
update_first-Found id st at m (op ∷ ops) ops' h a =
    elim (Option-cases (update_first id st at m ops)) [
      | inl e ↦ ground arith
      | inr (rest, e) ↦ ground (arith, update_first-Found id st at m ops rest e (a.1))
    ]

pub append-Found :
    (ops : List Operation) (op : Operation)
    → All FoundOperation ops
    → FoundOperation op
    → All FoundOperation (ops ++ (op ∷ []))
append-Found [] op a f = (f, tt)
append-Found (x ∷ ops) op a f = (a.0, append-Found ops op (a.1) f)

module _ (text : Texts) {S : Type 0} (c : Controller S) (n : String) (there : S → Type 0)
    (keep : KeepsInterface c n there) where
  pub record Found (w : Work S) : Type 0 where
    pub found : All FoundOperation w.transaction.operations
    pub named : w.transaction.interface ≡ n
    pub present : there w.host

  pub same-Found :
      (w w' : Work S) → w'.transaction ≡ w.transaction → w'.host ≡ w.host → Found w → Found w'
  same-Found w w' t h f = record {
    found = rw t f.found;
    named = rw t f.named;
    present = rw h f.present;
  }

  pub save-Found : Keeps Found (save text c)
  save-Found w f =
      let (t, h) = save-transaction text c w in same-Found w (final (save text c w)) t h f

  pub inject-Found : (k : OperationKind) → Keeps Found (maybe_inject text c k)
  inject-Found k w f =
      let (t, h) = maybe_inject-transaction text c k w in
      same-Found w (final (maybe_inject text c k w)) t h f

  pub mark-Found :
      (id : OperationId) (st : OperationStatus) (at : Option ℕ) (m : String)
      → Keeps Found (mark text c (update_status id st at m))
  mark-Found id st at m w f = go (update_status id st at m w.transaction) refl
    where
      go :
          (r : Result Journal.Error Transaction)
          → update_status id st at m w.transaction ≡ r
          → Found (
              final (elim r as (λ _. Outcome (Work S) Failure (Unit {0})) [
                | error e ↦ err (Failure.marking e) w
                | value t ↦ ok tt (record w { transaction = t })
              ]))
      go (error e) h = f
      go (value t) h =
          let (ops, hit, same) = update_status-ok id st at m w.transaction t h in
          record {
            found =
                rw same (update_first-Found id st at m w.transaction.operations ops hit f.found);
            named = rw same f.named;
            present = f.present;
          }

  pub rolled_back-Found : (id : OperationId) → Keeps Found (mark text c (mark_rolled_back id))
  unfolding mark_rolled_back
  rolled_back-Found id = mark-Found id Journal.rolled_back none ""

  pub mark_failed-Found :
      (id : OperationId) (m : String) → Keeps Found (mark text c (mark_failed id m))
  unfolding mark_failed
  mark_failed-Found id m = mark-Found id Journal.failed none m

  abbrev pub Stays : Call S (Unit {0}) → Type 0
  Stays f = (s : S) → there s → there (final (f s))

  pub call-Found :
      (id : OperationId) (f : Call S (Unit {0})) → Stays f → Keeps Found (call text c id f)
  unfolding call
  call-Found id f stays w u = go (f w.host) (stays w.host u.present)
    where
      go :
          (o : Outcome S Port.Error (Unit {0}))
          → there (final o)
          → Found (
              final (elim o as (λ _. Outcome (Work S) Failure (Unit {0})) [
                | ok _ s ↦ ok tt (record w { host = s })
                | err e s ↦
                    let marked =
                      final (
                        mark text c (mark_failed id (text.error_text e)) (record w { host = s })) in
                    err (Failure.calling id.kind e) (final (save text c marked))
              ]))
      go (ok _ s) h = record { found = u.found; named = u.named; present = h }
      go (err e s) h = save-Found _ (
          mark_failed-Found id (text.error_text e) (record w { host = s })
            (record { found = u.found; named = u.named; present = h }))

  pub step-Found :
      (k : OperationKind) (f : Call S (Unit {0})) (target : String) (now : ℕ)
      → Stays f
      → Keeps Found (apply_step text c k f target now)
  unfolding apply_step begin complete mark_applying mark_applied
  step-Found k f target now stays =
      let id = new_operation_id k target in
      let begins = mark text c (update_status id Journal.applying none "") >> save text c in
      let completes = mark text c (update_status id Journal.applied (some now) "") >> save text c in
      Keeps-then Found begins (call text c id f >> (completes >> maybe_inject text c k))
        (Keeps-then Found (mark text c (update_status id Journal.applying none "")) (save text c)
          (mark-Found id Journal.applying none "") save-Found)
        (Keeps-then Found (call text c id f) (completes >> maybe_inject text c k)
          (call-Found id f stays)
          (Keeps-then Found completes (maybe_inject text c k)
            (Keeps-then Found (mark text c (update_status id Journal.applied (some now) ""))
              (save text c) (mark-Found id Journal.applied (some now) "") save-Found)
            (inject-Found k)))
