-- ===== src/Sessions/Answered.antt =====
-- The sessions that this node has answered (`AnsweredSessions`, internal/orchestrator/driver.go). The
-- store of the record is a parameter. The lock serialises the calls, and has no model; no call is
-- made here on a record that is nil.
use nostmesh.Base.{ℕ, ◌-◌, ◌*◌, Bool, not, List, [], ◌∷◌, filter, Option, none, some, negsuc, ℕ_eq}
use nostmesh.Base.Map.{insert, has}
use nostmesh.Base.Outcome.{Outcome, ok, err}
use nostmesh.Base.Time.{second, before, add_duration}

-- What keeps the record across restarts, over whatever it is kept in.
pub record AnsweredStore (D E : Type 0) : Type 0 where
  pub load : D → Outcome D E (List (ℕ × ℕ))
  pub save : List (ℕ × ℕ) → D → D

pub record AnsweredSessions (D E : Type 0) : Type 0 where
  pub seen : List (ℕ × ℕ)
  pub store : Option (AnsweredStore D E)
  pub disk : D

abbrev pub answered_retention : ℕ
answered_retention = 3_600 * second

unfoldable pub insert_all : List (ℕ × ℕ) → List (ℕ × ℕ) → List (ℕ × ℕ)
insert_all [] seen = seen
insert_all ((id, at) ∷ loaded) seen = insert_all loaded (insert id at seen)

module _ {D E : Type 0} where
  unfoldable pub new_answered_sessions : D → AnsweredSessions D E
  new_answered_sessions disk = record { seen = []; store = none; disk = disk }

  -- The entries that are not older than the retention.
  unfoldable pub evict : ℕ → AnsweredSessions D E → AnsweredSessions D E
  evict now a = record a {
    seen =
        filter (λ e. not (before e.1 (add_duration now (negsuc (answered_retention - 1))))) a.seen;
  }

  unfoldable pub with_store :
      AnsweredStore D E → ℕ → AnsweredSessions D E → Outcome (AnsweredSessions D E) E (Unit {0})
  unfolding evict insert_all
  with_store store now a = elim (store.load a.disk) [
    | err e d ↦ err e (record a { store = some store; disk = d })
    | ok loaded d ↦
        ok tt
          (evict now (record a { seen = insert_all loaded a.seen; store = some store; disk = d }))
  ]

  unfoldable pub contains : ℕ → ℕ → AnsweredSessions D E → Bool × AnsweredSessions D E
  unfolding evict
  contains id now a = (has id (evict now a).seen, evict now a)

  -- Whether the record could be written is not looked at.
  unfoldable pub saved : AnsweredSessions D E → AnsweredSessions D E
  saved a = elim a.store [ none ↦ a | some store ↦ record a { disk = store.save a.seen a.disk } ]

  unfoldable pub add : ℕ → ℕ → AnsweredSessions D E → AnsweredSessions D E
  unfolding evict saved
  add id now a = let b = evict now a in saved (record b { seen = insert id now b.seen })
