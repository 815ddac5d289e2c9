-- ===== src/Netstate/Rising.antt =====
-- The interface is made, or the host is as it was, or the interface could not be made.
use nostmesh.Base.{ℕ, String, string_eq, ◌≡◌, ◌⊎◌, inl, inr, refl, subst, ap, ◌∙◌, none, some}
use nostmesh.Base.Outcome.{Outcome, ok, err, ◌>>◌, final}
use nostmesh.Wireguard.Port.{Controller, Call, InterfaceSpec, PeerSpec}
use nostmesh.Wireguard.Port
use nostmesh.Wireguard.Laws.{Confined}
use nostmesh.Netstate.Journal.{
  create_interface, applying, applied, failed, new_operation_id, mark_applying, mark_applied,
  mark_failed,
}
use nostmesh.Netstate.Planning.{Texts, Failure}
use nostmesh.Netstate.Manager.{
  Work, save, mark, begin, complete, maybe_inject, call, apply_step, ensure,
}
use nostmesh.Netstate.Steps.{Keeps, Keeps-then, Ends, End, Ends-then, Keeps-Ends, Created}
use nostmesh.Netstate.Updown.{Up, Down, save-Up, save-Down, inject-Up, mark_head, mark_head-Down}

module _ (text : Texts) {S : Type 0} (c : Controller S) (conf : Confined c) (n : String)
    (v : conf.View) where
  abbrev IsUp : Work S → Type 0
  IsUp = Up text c conf n v

  abbrev IsDown : Work S → Type 0
  IsDown = Down text c conf n v

  -- The call that makes the interface has failed: nothing is applied, and of the host only the
  -- interface may have changed.
  pub record Unmade (f : Failure) (w : Work S) : Type 0 where
    pub problem : Port.Error
    pub cause : f ≡ Failure.calling create_interface problem
    pub left : conf.View
    pub outside : conf.without n left ≡ v
    pub down : Down text c conf n left w

  -- Where an application fails, the interface is up or down, or could not be made.
  abbrev pub Settled : Failure → Work S → Type 0
  Settled f w = IsUp w ⊎ (IsDown w ⊎ Unmade f w)

  -- The call has succeeded, and the first operation is not marked yet.
  record Risen (w : Work S) : Type 0 where
    created : Created n w.transaction.operations
    named : w.transaction.interface ≡ n
    outside : conf.without n (conf.view w.host) ≡ v

  begin-Down : Keeps IsDown (begin text c (new_operation_id create_interface n))
  unfolding begin mark_applying
  begin-Down =
      Keeps-then IsDown (mark text c (mark_applying (new_operation_id create_interface n)))
        (save text c) ((mark_head-Down text c conf n v) applying none "" refl)
        (save-Down text c conf n v)

  ensure-Risen :
      (spec : InterfaceSpec)
      → spec.name ≡ n
      → conf.without n v ≡ v
      → Ends IsDown Risen Settled
          (call text c (new_operation_id create_interface n) (ensure text c spec))
  unfolding call mark_failed
  ensure-Risen spec name absent w d = go (c.ensure_interface spec w.host) refl
    where
      outside_same :
          (s : S)
          → conf.view (final (c.ensure_interface spec w.host)) ≡ conf.view s
          → conf.without n (conf.view s) ≡ v
      outside_same s h =
          subst (λ m. conf.without m (conf.view s) ≡ conf.without m (conf.view w.host)) name
            (rw (← h) (conf.ensure_confined spec w.host))
          ∙ rw d.untouched absent

      go :
          (o : Outcome S Port.Error Port.InterfaceState)
          → c.ensure_interface spec w.host ≡ o
          → End Risen Settled
              (elim (elim o as (λ _. Outcome S Port.Error (Unit {0})) [
                | ok _ t ↦ ok tt t
                | err e t ↦ err e t
              ])
                as (λ _. Outcome (Work S) Failure (Unit {0})) [
                  | ok _ s ↦ ok tt (record w { host = s })
                  | err e s ↦
                      let marked = final (
                        mark text c
                          (mark_failed (new_operation_id create_interface n) (text.error_text e))
                          (record w { host = s })) in
                      err (Failure.calling create_interface e) (final (save text c marked))
                ])
      go (ok _ s) h = record {
        created = d.created;
        named = d.named;
        outside = outside_same s (ap (λ o. conf.view (final o)) h);
      }
      go (err e s) h =
          let left = conf.view s in
          let d' : Down text c conf n left (record w { host = s }) = record {
            created = d.created;
            named = d.named;
            untouched = refl;
            unapplied = d.unapplied;
          } in
          inr (
            inr (record {
              problem = e;
              cause = refl;
              left = left;
              outside = outside_same s (ap (λ o. conf.view (final o)) h);
              down = (save-Down text c conf n left) _ (
                  (mark_head-Down text c conf n left) failed none (text.error_text e) refl
                    (record w { host = s }) d');
            }))

  mark-Risen :
      (now : ℕ)
      → Ends Risen IsUp Settled
          (mark text c (mark_applied (new_operation_id create_interface n) now))
  unfolding mark_applied
  mark-Risen now w r =
      let (ops, e, found, cr, hd) = (mark_head text c conf n v) applied (some now) "" w r.created in
      rw e (record { created = cr; named = r.named; outside = r.outside; head = hd })

  pub create-Settled :
      (spec : InterfaceSpec) (now : ℕ)
      → spec.name ≡ n
      → conf.without n v ≡ v
      → Ends IsDown IsUp Settled (apply_step text c create_interface (ensure text c spec) n now)
  unfolding apply_step complete
  create-Settled spec now name absent =
      let id = new_operation_id create_interface n in
      Ends-then IsDown IsDown IsUp Settled (begin text c id)
        (call text c id (ensure text c spec)
          >> ((mark text c (mark_applied id now) >> save text c)
              >> maybe_inject text c create_interface))
        (Keeps-Ends IsDown Settled (begin text c id) begin-Down (λ f w d. inr (inl d)))
        (Ends-then IsDown Risen IsUp Settled (call text c id (ensure text c spec))
          ((mark text c (mark_applied id now) >> save text c)
            >> maybe_inject text c create_interface)
          (ensure-Risen spec name absent)
          (Ends-then Risen IsUp IsUp Settled (mark text c (mark_applied id now) >> save text c)
            (maybe_inject text c create_interface)
            (Ends-then Risen IsUp IsUp Settled (mark text c (mark_applied id now)) (save text c)
              (mark-Risen now)
              (Keeps-Ends IsUp Settled (save text c) (save-Up text c conf n v) (λ f w u. inl u)))
            (Keeps-Ends IsUp Settled (maybe_inject text c create_interface)
              ((inject-Up text c conf n v) create_interface) (λ f w u. inl u))))
