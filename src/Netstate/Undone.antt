-- ===== src/Netstate/Undone.antt =====
-- Planning, applying and undoing, taken together.
use nostmesh.Base.{
  ◌⊎◌, append_assoc, ℕ, String, string_eq, ◌≡◌, inl, inr, refl, sym, subst, ap, ◌∙◌, true, false,
  List, [], ◌∷◌, ◌++◌, map, ◌==◌, arith, Bool-cases, is_some,
}
use nostmesh.Base.Outcome.{Outcome, ok, err, ◌>>◌, final}
use nostmesh.Wireguard.Port.{
  Controller, InterfaceSpec, InterfaceState, PeerSpec, interface_not_found, peer_not_found,
  not_owned, other,
}
use nostmesh.Wireguard.Port
use nostmesh.Wireguard.Laws.{Confined}
use nostmesh.Netstate.Journal.{
  OperationKind, create_interface, add_address, apply_peer, configure_interface, set_link_up,
  is_applied, planned, Operation, Transaction, new_transaction, plan, new_operation_id,
}
use nostmesh.Netstate.Journal
use nostmesh.Netstate.Planning.{
  Texts, Failure, Plan, touches_interface, plan_for, plan_interface, planned_operation,
}
use nostmesh.Netstate.Manager.{
  Work, ApplyError, refused, rolled, save, carry_out, compensate, roll_back, plan_all, opened,
  apply,
}
use nostmesh.Netstate.Steps.{
  Ends, End, Ends-then, Keeps, Keeps-Ends, save-transaction, Created, NoneApplied,
}
use nostmesh.Netstate.Updown.{Up, Down}
use nostmesh.Netstate.Rising.{Settled}
use nostmesh.Netstate.Rollback.{carry_out-Settled, Back, compensate-Back}

-- What could not be undone.
abbrev pub problems_of : ApplyError → List Failure
problems_of (refused f) = []
problems_of (rolled f fs) = fs

abbrev replanned : ℕ → Operation → Operation
replanned now op = record op { status = planned; planned_at = now }

NoneApplied-replanned : (now : ℕ) (ops : List Operation) → NoneApplied (map (replanned now) ops)
NoneApplied-replanned now [] = refl
NoneApplied-replanned now (op ∷ ops) = NoneApplied-replanned now ops

append-nil : (ops : List Operation) → ops ++ [] ≡ ops
append-nil [] = refl
append-nil (op ∷ ops) = ap (λ r. op ∷ r) (append-nil ops)

module _ (text : Texts) {S : Type 0} (c : Controller S) (conf : Confined c) (v : conf.View) where
  -- The operations that the transaction lists so far; the host is as it was.
  record Listed (n : String) (ops : List Operation) (w : Work S) : Type 0 where
    listed : w.transaction.operations ≡ ops
    named : w.transaction.interface ≡ n
    untouched : conf.view w.host ≡ v

  abbrev Untouched : Failure → Work S → Type 0
  Untouched f w = conf.view w.host ≡ v

  plan_all-Listed :
      (n : String) (ops done : List Operation) (now : ℕ)
      → Ends
          (Listed n done)
          (Listed n (done ++ map (replanned now) ops))
          Untouched
          (plan_all text c ops now)
  unfolding plan_all plan
  plan_all-Listed n [] done now w l = record {
    listed = l.listed ∙ sym (append-nil done);
    named = l.named;
    untouched = l.untouched;
  }
  plan_all-Listed n (op ∷ ops) done now w l = elim (Bool-cases (is_some w.transaction.ended_at)) [
    | inl e ↦ rw (End, e) l.untouched
    | inr e ↦
        let w' = record w {
          transaction = record (w.transaction) {
            operations = w.transaction.operations ++ (replanned now op ∷ []);
          };
        } in
        let l' : Listed n (done ++ (replanned now op ∷ [])) w' = record {
          listed = rw l.listed;
          named = l.named;
          untouched = l.untouched;
        } in
        rw (End, e)
          (subst (λ all. End (Listed n all) Untouched (plan_all text c ops now w'))
            (append_assoc done (replanned now op) (map (replanned now) ops))
            (plan_all-Listed n ops (done ++ (replanned now op ∷ [])) now w' l'))
  ]

  save-Listed : (n : String) (ops : List Operation) → Keeps (Listed n ops) (save text c)
  save-Listed n ops w l =
      let (t, h) = save-transaction text c w in
      record { listed = rw t l.listed; named = rw t l.named; untouched = rw h l.untouched }

  planned-Listed :
      (p : Plan) (now : ℕ) (w : Work S)
      → conf.view w.host ≡ v
      → End
          (Listed p.interface.name (map (replanned now) p.operations))
          Untouched
          ((plan_all text c p.operations now >> save text c) (opened text c p now w))
  unfolding opened new_transaction
  planned-Listed p now w h =
      let n = p.interface.name in
      let all = map (replanned now) p.operations in
      Ends-then (Listed n []) (Listed n all) (Listed n all) Untouched
        (plan_all text c p.operations now) (save text c) (plan_all-Listed n p.operations [] now)
        (Keeps-Ends (Listed n all) Untouched (save text c) (save-Listed n all)
          (λ f u l. l.untouched))
        (opened text c p now w) (record { listed = refl; named = refl; untouched = h })

  roll_back-view :
      (f : Failure) (now : ℕ) (w w' : Work S) (x : ApplyError)
      → roll_back text c f now w ≡ err x w'
      → (x ≡ rolled f (compensate text c w).0) × (w'.host ≡ (compensate text c w).1.host)
  unfolding roll_back
  roll_back-view f now w w' x h =
      let saved = save-transaction text c (record ((compensate text c w).1) {
        transaction = Journal.close now (compensate text c w).1.transaction;
      }) in
      ground (arith, saved)

  -- What an application that fails leaves of the host.
  abbrev pub Spared : String → ApplyError → S → Type 0
  Spared n x s =
      (conf.without n (conf.view s) ≡ v)
      × ((conf.view s ≡ v)
          ⊎ ((e : Port.Error) × (x ≡ rolled (Failure.calling create_interface e) [])))

  Back-Spared :
      (p : Plan) (absent : conf.without p.interface.name v ≡ v) (f : Failure) (x : ApplyError)
      (s s' : S)
      → Back text c conf p v absent f s
      → s' ≡ s
      → x ≡ rolled f []
      → Spared p.interface.name x s'
  Back-Spared p absent f x s s' (outside, inl same) h y = rw h (outside, inl same)
  Back-Spared p absent f x s s' (outside, inr (e, g)) h y =
      rw h (outside, inr (e, y ∙ ap (λ k. rolled k []) g))

  -- An application whose plan creates an interface that was not there, and that fails with nothing
  -- left to undo.
  apply-Spared :
      (p : Plan) (now : ℕ) (w w' : Work S) (x : ApplyError)
      → conf.without p.interface.name v ≡ v
      → conf.view w.host ≡ v
      → touches_interface p ≡ true
      → Created p.interface.name (map (replanned now) p.operations)
      → apply text c p now w ≡ err x w'
      → problems_of x ≡ []
      → Spared p.interface.name x w'.host
  unfolding apply
  apply-Spared p now w w' x absent h touches created r q =
      go ((plan_all text c p.operations now >> save text c) (opened text c p now w))
        (planned-Listed p now w h) r
    where
      settled :
          (o : Outcome (Work S) Failure (Unit {0})) (w1 : Work S)
          → o ≡ carry_out text c p now w1
          → Down text c conf p.interface.name v w1
          → elim o as (λ _. Outcome (Work S) ApplyError Transaction) [
            | err f w2 ↦ roll_back text c f now w2
            | ok _ w2 ↦ ok w2.transaction w2
          ]
            ≡ err x w'
          → Spared p.interface.name x w'.host
      settled (ok _ w2) w1 e d r' = absurd (ground arith)
      settled (err f w2) w1 e d r' =
          let (same, host) = roll_back-view f now w2 w' x r' in
          let s =
            subst
              (λ o.
                End (Up text c conf p.interface.name v) (Settled text c conf p.interface.name v) o)
              (sym e) (carry_out-Settled text c conf p v absent now touches w1 d) in
          let none_left : (compensate text c w2).0 ≡ [] = ground (arith, same) in
          Back-Spared p absent f x (compensate text c w2).1.host w'.host
            (compensate-Back text c conf p v absent f w2 s none_left) host
            (same ∙ ap (λ fs. rolled f fs) none_left)

      go :
          (o : Outcome (Work S) Failure (Unit {0}))
          → End (Listed p.interface.name (map (replanned now) p.operations)) Untouched o
          → elim o as (λ _. Outcome (Work S) ApplyError Transaction) [
            | err f w1 ↦ err (refused f) w1
            | ok _ w1 ↦ elim (carry_out text c p now w1) [
              | err f w2 ↦ roll_back text c f now w2
              | ok _ w2 ↦ ok w2.transaction w2
            ]
          ]
            ≡ err x w'
          → Spared p.interface.name x w'.host
      go (err f w1) u r' =
          let host : w1.host ≡ w'.host = ground arith in rw (← host) (rw u absent, inl u)
      go (ok _ w1) l r' =
          settled (carry_out text c p now w1) w1 refl
            (record {
              created = rw l.listed created;
              named = l.named;
              untouched = l.untouched;
              unapplied = rw l.listed (NoneApplied-replanned now p.operations);
            })
            r'

fresh_plan :
    (text : Texts) (id : String) (spec : InterfaceSpec) (peers : List PeerSpec) (now later : ℕ)
    (p : Plan)
    → plan_for text id spec peers now false [] [] ≡ p
    → (p.interface.name ≡ spec.name)
      × (touches_interface p ≡ true)
      × Created p.interface.name (map (replanned later) p.operations)
unfolding plan_for touches_interface planned_operation
fresh_plan text id spec peers now later p e =
    subst
      (λ q.
        (q.interface.name ≡ spec.name)
        × (touches_interface q ≡ true)
        × Created q.interface.name (map (replanned later) q.operations))
      e (refl, refl, (refl, refl, refl))

-- Where a plan for an interface that the host does not carry is applied and fails, and nothing that
-- was applied could not be undone, the host carries what it did before outside of the interface; and
-- it carries what it did before altogether, unless what failed was the call that makes the
-- interface, of which a failure may leave anything of the interface behind.
pub plan_apply_spared :
    (text : Texts) {S : Type 0} (c : Controller S) (conf : Confined c) (id : String)
    (spec : InterfaceSpec) (peers : List PeerSpec) (now later : ℕ) (s t : S) (p : Plan)
    (w w' : Work S) (x : ApplyError)
    → conf.without spec.name (conf.view s) ≡ conf.view s
    → plan_interface text c id spec peers now s ≡ ok p t
    → w.host ≡ t
    → apply text c p later w ≡ err x w'
    → problems_of x ≡ []
    → (conf.without spec.name (conf.view w'.host) ≡ conf.view s)
      × ((conf.view w'.host ≡ conf.view s)
          ⊎ ((e : Port.Error) × (x ≡ rolled (Failure.calling create_interface e) [])))
unfolding plan_interface
plan_apply_spared text c conf id spec peers now later s t p w w' x absent planned_p start r q =
    go (c.observe_interface spec.name s) refl
  where
    fresh :
        (u : _)
        → c.observe_interface spec.name s ≡ err interface_not_found u
        → (plan_for text id spec peers now false [] [] ≡ p) × (u ≡ t)
    fresh u e = ground (arith, Bool-cases (id == ""))

    go :
        (o : Outcome _ Port.Error InterfaceState)
        → c.observe_interface spec.name s ≡ o
        → Spared text c conf (conf.view s) spec.name x w'.host
    go (ok i u) e = absurd (conf.observe_absent spec.name s u i absent e)
    go (err interface_not_found u) e =
        let (same, at) = fresh u e in
        let (name, touches, created) = fresh_plan text id spec peers now later p same in
        let looked : conf.view u ≡ conf.view s =
          ap (λ o. conf.view (final o)) (sym e) ∙ conf.observe_looks spec.name s in
        subst (λ n. Spared text c conf (conf.view s) n x w'.host) name
          (apply-Spared text c conf (conf.view s) p later w w' x (rw name absent)
            (rw start (rw (← at) looked)) touches created r q)
    go (err peer_not_found u) e = absurd (ground (arith, Bool-cases (id == "")))
    go (err not_owned u) e = absurd (ground (arith, Bool-cases (id == "")))
    go (err (other m) u) e = absurd (ground (arith, Bool-cases (id == "")))
