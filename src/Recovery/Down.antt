-- ===== src/Recovery/Down.antt =====
-- `Down` as a whole, on a host in memory and a disk on which nothing fails.
use nostmesh.Base.{
  ℕ, String, string_eq, ◌≡◌, refl, ap, ◌∙◌, true, false, List, [], ◌∷◌, map, All, none,
  if◌then◌else◌, Bool-cases, inl, inr, ◌==◌, filter,
}
use nostmesh.Base.Map.{lookup}
use nostmesh.Base.Outcome.{Outcome, ok, err}
use nostmesh.Netstate.Journal.{Transaction, close, needs_recovery}
use nostmesh.Netstate.Store.{
  JournalStore, put, has_separator, write_atomic, save, list, pending_recovery,
}
use nostmesh.Wireguard.Port.{owns_interface, Error}
use nostmesh.Wireguard.Fake.{Fake, fake_controller}
use nostmesh.Recovery.Reconcile.{
  close_all, Reconciliation, nothing_done, Node, reconcile_journal, clear_host, down,
}
use nostmesh.Recovery.Marks.{DistinctIds, Closed, mark_all-Closed}
use nostmesh.Recovery.Hosts.{Sure, Calm, Cleared, clear_host-Cleared}

-- The store takes the transaction, and no two of its operations have one id.
pub record Closable (t : Transaction) : Type 0 where
  pub has_id : (t.id == "") ≡ false
  pub plain_id : has_separator t.id ≡ false
  pub distinct : DistinctIds t.operations

save-Sure :
    (t : Transaction) (j : JournalStore)
    → j.writes ≡ []
    → (t.id == "") ≡ false
    → has_separator t.id ≡ false
    → save t j ≡ ok tt (record j { files = put t j; writes = [] })
unfolding save write_atomic
save-Sure t j w h p =
    rw (h, p, write_atomic, w) (ap (λ l. ok tt (record j { files = put t j; writes = l })) w)

close_all-Sure :
    (now : ℕ) (ts : List Transaction) (j : JournalStore)
    → j.writes ≡ []
    → All Closable ts
    → (closed : List Transaction) × ((j' : JournalStore) × (close_all ts now j ≡ ok closed j'))
unfolding close_all close
close_all-Sure now [] j w c = ([], (j, refl))
close_all-Sure now (t ∷ ts) j w c =
    let cl : Closed now t = mark_all-Closed now t c.0.distinct in
    let m : Transaction = close now cl.marked in
    let saved : save m j ≡ ok tt (record j { files = put m j; writes = [] }) =
      save-Sure m j w (ap (λ s. s == "") cl.keeps ∙ c.0.has_id)
        (ap has_separator cl.keeps ∙ c.0.plain_id) in
    let later = close_all-Sure now ts (record j { files = put m j; writes = [] }) refl c.1 in
    (m ∷ later.0, (later.1.0, rw (cl.marks, saved, later.1.1, close_all)))

pending-Closable :
    (files : List (String × Transaction))
    → All (λ e. Closable e.1) files
    → All Closable (filter needs_recovery (map (λ e. e.1) files))
pending-Closable [] c = tt
pending-Closable (e ∷ files) c = elim (Bool-cases (needs_recovery e.1)) [
  | inl p ↦ rw p (c.0, pending-Closable files c.1)
  | inr p ↦ rw p (pending-Closable files c.1)
]

reconcile_journal-Sure :
    {S : Type 0} (r : Reconciliation) (now : ℕ) (n : Node S)
    → n.journal.writes ≡ []
    → All (λ e. Closable e.1) n.journal.files
    → (r' : Reconciliation) × ((j : JournalStore) × (reconcile_journal r now n
          ≡ ok r' (record n { journal = j })))
unfolding reconcile_journal pending_recovery list
reconcile_journal-Sure r now n w c =
    let done =
      close_all-Sure now (pending_recovery n.journal) n.journal w
        (pending-Closable n.journal.files c) in
    (record r { interrupted = done.0 }, (done.1.0, rw (done.1.1, reconcile_journal)))

-- When no call fails and every write succeeds, `Down` returns, and the host carries exactly the
-- interfaces that it carried and that are not the program's own, if each stands under its name and
-- every transaction has an id that the store takes and operations of distinct ids.
pub down_returns :
    (now : ℕ) (n : Node Fake) (m : String)
    → Calm n.host
    → n.journal.writes ≡ []
    → All (λ e. Closable e.1) n.journal.files
    → (r : Reconciliation) × ((n' : Node Fake) × ((down fake_controller now n ≡ ok r n')
          × (lookup m n'.host.interfaces
              ≡ (if owns_interface m then none else lookup m n.host.interfaces))))
unfolding down
down_returns now n m calm w c =
    go (clear_host fake_controller true nothing_done n.host) refl
      (clear_host-Cleared n.host true nothing_done calm)
  where
    go :
        (o : Outcome Fake Error Reconciliation)
        → clear_host fake_controller true nothing_done n.host ≡ o
        → Sure (Cleared n.host owns_interface) o
        → (r : Reconciliation) × ((n' : Node Fake) × ((down fake_controller now n ≡ ok r n')
              × (lookup m n'.host.interfaces
                  ≡ (if owns_interface m then none else lookup m n.host.interfaces))))
    go (err _ _) e k = absurd k
    go (ok r s) e k =
        let after : Node Fake = record n { host = s } in
        let done = reconcile_journal-Sure r now after w c in
        (done.0, (record after { journal = done.1.0 }, (rw (e, done.1.1, down), k.left m)))
