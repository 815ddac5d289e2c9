-- ===== src/Netstate/Found.antt =====
-- An interface that was there before an application is there after it.
use nostmesh.Base.{
  ℕ, String, string_eq, ◌≡◌, inl, inr, refl, subst, true, false, List, [], ◌∷◌, ◌++◌, map, filter,
  ◌==◌, arith, Option-cases, Bool-cases, is_some, All,
}
use nostmesh.Base.Outcome.{Outcome, ok, err, ◌>>◌, final}
use nostmesh.Wireguard.Port.{
  Controller, Call, InterfaceSpec, InterfaceState, PeerSpec, interface_not_found, peer_not_found,
  not_owned, other,
}
use nostmesh.Wireguard.Port
use nostmesh.Wireguard.Laws.{KeepsInterface}
use nostmesh.Netstate.Journal.{
  OperationKind, create_interface, configure_interface, add_address, set_link_up, apply_peer,
  add_route, is_applied, Operation, Transaction, applied_operations, compensation_order,
  reversed_onto, close, new_transaction, plan,
}
use nostmesh.Netstate.Planning.{
  Texts, Failure, Plan, plan_for, plan_interface, planned_operation, contains_prefix, contains_peer,
}
use nostmesh.Netstate.Manager.{
  Work, ApplyError, refused, save, carry_out, undo, answer, compensate_one, compensate_all,
  compensate, roll_back, plan_all, opened, apply,
}
use nostmesh.Netstate.Steps.{Keeps, Keeps-then}
use nostmesh.Netstate.Kept.{FoundOperation, append-Found, Found, save-Found, rolled_back-Found}
use nostmesh.Netstate.Carried.{carry_out-Found}

module _ (text : Texts) {S : Type 0} (c : Controller S) (n : String) (there : S → Type 0)
    (keep : KeepsInterface c n there) where
  abbrev Held : Work S → Type 0
  Held = Found text c n there keep

  undo-Found :
      (op : Operation) (s : S)
      → FoundOperation op
      → op.existed ≡ false
      → there s
      → there (undo text c op.kind n op.target s).1
  unfolding undo
  undo-Found op s f x h = go op.kind refl
    where
      problem :
          (k : OperationKind) (o : Outcome S Port.Error (Unit {0}))
          → there (final o)
          → there (answer text c k o).1
      problem k (ok _ t) q = q
      problem k (err e t) q = q

      go : (k : OperationKind) → op.kind ≡ k → there (undo text c k n op.target s).1
      go create_interface e = absurd (ground arith)
      go apply_peer e = elim (Option-cases (text.parse_key op.target)) [
        | inl y ↦ rw (y, undo) h
        | inr (key, y) ↦
            rw (y, undo)
              (problem apply_peer (c.remove_peer n key s) (keep.remove_peer_keeps key s h))
      ]
      go add_route e = elim (Option-cases (text.parse_prefix op.target)) [
        | inl y ↦ rw (y, undo) h
        | inr (q, y) ↦
            rw (y, undo) (problem add_route (c.remove_route n q s) (keep.remove_route_keeps q s h))
      ]
      go configure_interface e = h
      go set_link_up e = h
      go add_address e = h

  compensate_one-Found :
      (op : Operation) (w : Work S)
      → FoundOperation op
      → Held w
      → Held (compensate_one text c op w).1
  unfolding compensate_one
  compensate_one-Found op w f u = elim (Bool-cases op.existed) [
    | inl e ↦ rw e ((rolled_back-Found text c n there keep) op.id w u)
    | inr e ↦
        let r = undo text c op.kind w.transaction.interface op.target w.host in
        let h : there (r.1) = rw u.named (undo-Found op w.host f e u.present) in
        let u' : Held (record w { host = r.1 }) = record {
          found = u.found;
          named = u.named;
          present = h;
        } in
        elim (Option-cases (r.0)) [
          | inl y ↦
              rw (e, y) ((rolled_back-Found text c n there keep) op.id (record w { host = r.1 }) u')
          | inr (x, y) ↦ rw (e, y) u'
        ]
  ]

  compensate_all-Found :
      (ops : List Operation) (w : Work S)
      → All FoundOperation ops
      → Held w
      → Held (compensate_all text c ops w).1
  unfolding compensate_all
  compensate_all-Found [] w a u = u
  compensate_all-Found (op ∷ ops) w a u =
      compensate_all-Found ops (compensate_one text c op w).1 (a.1)
        (compensate_one-Found op w (a.0) u)

  reversed_onto-Found :
      (ops rest : List Operation)
      → All FoundOperation ops
      → All FoundOperation rest
      → All FoundOperation (reversed_onto ops rest)
  unfolding reversed_onto
  reversed_onto-Found [] rest a b = b
  reversed_onto-Found (op ∷ ops) rest a b = reversed_onto-Found ops (op ∷ rest) (a.1) (a.0, b)

  applied-Found :
      (ops : List Operation)
      → All FoundOperation ops
      → All FoundOperation (filter (λ op. is_applied op.status) ops)
  applied-Found [] a = tt
  applied-Found (op ∷ ops) a = elim (Bool-cases (is_applied op.status)) [
    | inl e ↦ rw e (a.0, applied-Found ops (a.1))
    | inr e ↦ rw e (applied-Found ops (a.1))
  ]

  compensate-Found : (w : Work S) → Held w → Held (compensate text c w).1
  unfolding compensate compensation_order applied_operations
  compensate-Found w u =
      compensate_all-Found (compensation_order w.transaction) w
        (reversed_onto-Found (applied_operations w.transaction) []
          (applied-Found w.transaction.operations u.found) tt)
        u

  plan_all-Found :
      (ops : List Operation) (now : ℕ)
      → All FoundOperation ops
      → Keeps Held (plan_all text c ops now)
  unfolding plan_all plan
  plan_all-Found [] now a w u = u
  plan_all-Found (op ∷ ops) now a w u = elim (Bool-cases (is_some w.transaction.ended_at)) [
    | inl e ↦ rw (final, e) u
    | inr e ↦
        rw (final, e)
          (plan_all-Found ops now (a.1) _ (record {
            found = append-Found w.transaction.operations _ u.found (a.0);
            named = u.named;
            present = u.present;
          }))
  ]

  -- Whatever the outcome, the work that an application leaves.
  apply-Found :
      (p : Plan) (now : ℕ) (w : Work S)
      → p.interface.name ≡ n
      → All FoundOperation p.operations
      → there w.host
      → Held (final (apply text c p now w))
  unfolding apply opened new_transaction roll_back close
  apply-Found p now w name a h =
      go ((plan_all text c p.operations now >> save text c) (opened text c p now w)) (
        Keeps-then Held (plan_all text c p.operations now) (save text c)
          (plan_all-Found p.operations now a) (save-Found text c n there keep)
          (opened text c p now w) (record { found = tt; named = name; present = h }))
    where
      rolled_back : (f : Failure) (w2 : Work S) → Held w2 → Held (final (roll_back text c f now w2))
      rolled_back f w2 u =
          let u' = compensate-Found w2 u in
          let w' = (compensate text c w2).1 in
          (save-Found text c n there keep) (record w' { transaction = close now w'.transaction })
            (record { found = u'.found; named = u'.named; present = u'.present })

      finish :
          (o : Outcome (Work S) Failure (Unit {0}))
          → Held (final o)
          → Held (
              final (elim o as (λ _. Outcome (Work S) ApplyError Transaction) [
                | err f w2 ↦ roll_back text c f now w2
                | ok _ w2 ↦ ok w2.transaction w2
              ]))
      finish (err f w2) u = rolled_back f w2 u
      finish (ok _ w2) u = u

      go :
          (o : Outcome (Work S) Failure (Unit {0}))
          → Held (final o)
          → Held (
              final (elim o as (λ _. Outcome (Work S) ApplyError Transaction) [
                | err f w1 ↦ err (refused f) w1
                | ok _ w1 ↦ elim (carry_out text c p now w1) [
                  | err f w2 ↦ roll_back text c f now w2
                  | ok _ w2 ↦ ok w2.transaction w2
                ]
              ]))
      go (err f w1) u = u
      go (ok _ w1) u =
          finish (carry_out text c p now w1) ((carry_out-Found text c n there keep) p now name w1 u)

mapped-Found :
    {A : Type 0} (f : A → Operation)
    → ((a : A) → FoundOperation (f a))
    → (xs : List A) (rest : List Operation) → All FoundOperation rest
    → All FoundOperation (map f xs ++ rest)
mapped-Found f h [] rest a = a
mapped-Found f h (x ∷ xs) rest a = (h x, mapped-Found f h xs rest a)

last-Found :
    {A : Type 0} (f : A → Operation)
    → ((a : A) → FoundOperation (f a))
    → (xs : List A) → All FoundOperation (map f xs)
last-Found f h [] = tt
last-Found f h (x ∷ xs) = (h x, last-Found f h xs)

plan_for-Found :
    (text : Texts) (id : String) (spec : InterfaceSpec) (peers : List PeerSpec) (now : ℕ)
    (i : InterfaceState)
    → All FoundOperation (plan_for text id spec peers now true i.addresses i.peers).operations
unfolding plan_for planned_operation
plan_for-Found text id spec peers now i = (
  refl,
  (
    refl,
    mapped-Found
        (λ a.
          planned_operation add_address (text.prefix_text a) (contains_prefix i.addresses a) now)
        (λ a. refl) spec.addresses _
        (
          refl,
          last-Found
              (λ p.
                planned_operation apply_peer (text.key_text p.public_key)
                  (contains_peer i.peers p.public_key) now)
              (λ p. refl) peers,
        ),
  ),
)

-- Where a plan is made for an interface that the host carries, the host carries it after the
-- application, whether that succeeds or fails and is undone.
pub plan_apply_found :
    (text : Texts) {S : Type 0} (c : Controller S) (id : String) (spec : InterfaceSpec)
    (there : S → Type 0) (keep : KeepsInterface c spec.name there) (peers : List PeerSpec)
    (now later : ℕ) (s t u : S) (i : InterfaceState) (p : Plan) (w : Work S)
    → c.observe_interface spec.name s ≡ ok i u
    → plan_interface text c id spec peers now s ≡ ok p t
    → there w.host
    → there (final (apply text c p later w)).host
unfolding plan_interface plan_for
plan_apply_found text c id spec there keep peers now later s t u i p w seen made h =
    let same : plan_for text id spec peers now true i.addresses i.peers ≡ p =
      ground (arith, Bool-cases (id == "")) in
    (apply-Found text c spec.name there keep p later w
      (subst (λ q. q.interface.name ≡ spec.name) same refl)
      (subst (λ q. All FoundOperation q.operations) same (plan_for-Found text id spec peers now i))
      h).present
