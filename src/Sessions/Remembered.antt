-- ===== src/Sessions/Remembered.antt =====
-- How long an answered session is remembered.
use nostmesh.Base.{
  ℕ, ◌+◌, ◌-◌, ◌≤◌, ◌<◌, ◌≡◌, refl, sym, ◌∙◌, Bool, true, false, not, List, [], ◌∷◌, All, filter,
  some, negsuc, ℕ_eq, ◌==◌, nat_eq_iff, arith, Bool-cases, Option-cases, inl, inr,
}
use nostmesh.Base.Map.{lookup, insert, has, lookup-insert}
use nostmesh.Base.Time.{before, add_duration}
use nostmesh.Sessions.Answered.{AnsweredSessions, answered_retention, evict, contains, saved, add}

-- What is asked of the record, each at a time of the clock.
pub data Event : Type 0 where
  asked recorded : ℕ → ℕ → Event

abbrev pub time_of : Event → ℕ
time_of (asked id now) = now
time_of (recorded id now) = now

-- The session with the id is held, since a time that is not before the given one.
pub Held : ℕ → ℕ → List (ℕ × ℕ) → Type 0
Held id t seen = (u : ℕ) × ((lookup id seen ≡ some u) × (t ≤ u))

-- The entries that are fresh now, as `evict` keeps them.
abbrev pub fresh : ℕ → ℕ × ℕ → Bool
fresh now e = not (before e.1 (add_duration now (negsuc (answered_retention - 1))))

Held-filter :
    (id t now : ℕ) (seen : List (ℕ × ℕ))
    → now ≤ t + answered_retention
    → Held id t seen
    → Held id t (filter (fresh now) seen)
unfolding Held
Held-filter id t now [] n (u, (h, l)) = absurd (ground arith)
Held-filter id t now ((j, v) ∷ seen) n (u, (h, l)) = elim (Bool-cases (j == id)) [
  | inl e ↦ let f : fresh now (j, v) ≡ true = ground arith in (u, (rw (f, e) (sym (rw e) ∙ h), l))
  | inr e ↦
      let ih : Held id t (filter (fresh now) seen) =
        Held-filter id t now seen n (u, (rw e at h, l)) in
      elim (Bool-cases (fresh now (j, v))) [ inl f ↦ rw (f, e) ih | inr f ↦ rw f ih ]
]

Held-insert :
    (id t other now : ℕ) (seen : List (ℕ × ℕ))
    → t ≤ now
    → Held id t seen
    → Held id t (insert other now seen)
unfolding Held
Held-insert id t other now seen n (u, (h, l)) = elim (Bool-cases (other == id)) [
  | inl e ↦ (now, (lookup-insert other id now seen ∙ rw e, n))
  | inr e ↦ (u, (lookup-insert other id now seen ∙ rw e h, l))
]

Old-filter :
    (id t now : ℕ) (seen : List (ℕ × ℕ))
    → All (λ e. e.1 ≤ t) seen
    → t + answered_retention < now
    → has id (filter (fresh now) seen) ≡ false
Old-filter id t now [] a l = refl
Old-filter id t now ((j, v) ∷ seen) (a, as') l = ground (arith, Old-filter id t now seen as' l)

module _ {D E : Type 0} where
  abbrev pub perform : Event → AnsweredSessions D E → AnsweredSessions D E
  perform (asked id now) a = (contains id now a).1
  perform (recorded id now) a = add id now a

  abbrev pub perform_all : List Event → AnsweredSessions D E → AnsweredSessions D E
  perform_all [] a = a
  perform_all (e ∷ es) a = perform_all es (perform e a)

  seen-saved : (a : AnsweredSessions D E) → (saved a).seen ≡ a.seen
  unfolding saved
  seen-saved a = elim (Option-cases a.store) [
    | inl h ↦ rw (saved, h) refl
    | inr (s, h) ↦ rw (saved, h) refl
  ]

  perform-Held :
      (id t : ℕ) (e : Event) (a : AnsweredSessions D E)
      → t ≤ time_of e
      → time_of e ≤ t + answered_retention
      → Held id t a.seen
      → Held id t (perform e a).seen
  unfolding contains add evict
  perform-Held id t (asked other now) a l m h = Held-filter id t now a.seen m h
  perform-Held id t (recorded other now) a l m h =
      rw (seen-saved (record (evict now a) { seen = insert other now (evict now a).seen }))
        (Held-insert id t other now (evict now a).seen l (Held-filter id t now a.seen m h))

  perform_all-Held :
      (id t : ℕ) (es : List Event) (a : AnsweredSessions D E)
      → All (λ e. (t ≤ time_of e) × (time_of e ≤ t + answered_retention)) es
      → Held id t a.seen
      → Held id t (perform_all es a).seen
  perform_all-Held id t [] a within h = h
  perform_all-Held id t (e ∷ es) a ((l, m), within) h =
      perform_all-Held id t es (perform e a) within (perform-Held id t e a l m h)

  -- A session that was answered is found to have been, whatever else is asked and recorded in
  -- between, for an hour from then.
  pub add-contains :
      (id t now : ℕ) (es : List Event) (a : AnsweredSessions D E)
      → All (λ e. (t ≤ time_of e) × (time_of e ≤ t + answered_retention)) es
      → now ≤ t + answered_retention
      → (contains id now (perform_all es (add id t a))).0 ≡ true
  unfolding contains evict Held add
  add-contains id t now es a within n = found _ (
      Held-filter id t now (perform_all es (add id t a)).seen n (
        perform_all-Held id t es (add id t a) within (
          rw (seen-saved (record (evict t a) { seen = insert id t (evict t a).seen })) (
            t,
            (lookup-insert id id t (evict t a).seen ∙ rw ((nat_eq_iff id id).1 refl), omega arith),
          ))))
    where
      found : (seen : List (ℕ × ℕ)) → Held id t seen → has id seen ≡ true
      found seen (u, (h, l)) = rw h refl

  -- A session that was not recorded after a time is not held once more than an hour has passed.
  pub contains_forgets :
      (id t now : ℕ) (a : AnsweredSessions D E)
      → All (λ e. e.1 ≤ t) a.seen
      → t + answered_retention < now
      → (contains id now a).0 ≡ false
  unfolding contains evict
  contains_forgets id t now a old l = Old-filter id t now a.seen old l
