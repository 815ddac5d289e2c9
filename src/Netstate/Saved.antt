-- ===== src/Netstate/Saved.antt =====
-- What a save to the journal leaves on disk.
use nostmesh.Base.{string_eq, ◌≡◌, refl, Bool-cases, inl, inr, ◌==◌, List, [], ◌∷◌}
use nostmesh.Base.Outcome.{Outcome, ok, err}
use nostmesh.Netstate.Journal.{Transaction}
use nostmesh.Netstate.Store.{
  Write, done, lost, kept_unsynced, JournalStore, put, has_separator, write_atomic, save,
}

-- What holds of the state after a success.
unfoldable pub Wins : {S E A : Type 0} → (S → Type 0) → Outcome S E A → Type 0
Wins Q (ok _ j) = Q j
Wins Q (err _ _) = Unit

-- A save that succeeds puts the transaction in place.
pub save-files : (t : Transaction) (j : JournalStore) → Wins (λ j'. j'.files ≡ put t j) (save t j)
unfolding Wins save write_atomic
save-files t j = elim (Bool-cases (t.id == "")) [
  | inl e ↦ rw e tt
  | inr e ↦ elim (Bool-cases (has_separator t.id)) [
    | inl b ↦ rw (e, b) tt
    | inr b ↦ rw (e, b) (atomic j.writes refl)
  ]
]
  where
    atomic : (l : List Write) → j.writes ≡ l → Wins (λ j'. j'.files ≡ put t j) (write_atomic t j)
    atomic [] h = rw h refl
    atomic (done ∷ l) h = rw h refl
    atomic (lost ∷ l) h = rw h tt
    atomic (kept_unsynced ∷ l) h = rw h tt
