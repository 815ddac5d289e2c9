-- ===== src/Inbox/Bounds.antt =====
-- How much the inbox holds, and that a place in a session always names a remembered event.
use nostmesh.Base.{
  ℕ, ◌+◌, ◌≤◌, ◌<◌, String, ◌≡◌, ◌≢◌, refl, sym, ◌∙◌, subst, Bool, true, not, ◌||◌, List, [], ◌∷◌,
  arith, filter, string_eq, ◌==◌, Bool-cases, inl, inr, leb, leb→le, length, length-filter-le, ◌⊎◌,
}
use nostmesh.Base.Map.{
  insert, delete, has, lookup-insert, lookup-delete, length-insert, length-delete-lt,
  length-delete-le,
}
use nostmesh.Base.Time.{before}
use nostmesh.Inbox.Observe.{
  Inbox, LogicalKey, is_fresh, evict_expired, evict_oldest, remember, observe, oldest_from,
}

-- No event has an empty id.
abbrev pub NamedEvents : List (String × ℕ) → Type 0
NamedEvents [] = Unit
NamedEvents ((id, _) ∷ es) = (id ≢ "") × NamedEvents es

-- Every place of a session is claimed by an event that is remembered.
abbrev pub Backed : List (String × ℕ) → List (String × String) → Type 0
Backed events [] = Unit
Backed events ((_, id) ∷ ls) = (has id events ≡ true) × Backed events ls

pub record Inv (i : Inbox) : Type 0 where
  pub room : 0 < i.max_entries
  pub bounded : length i.seen_events ≤ i.max_entries
  pub named : NamedEvents i.seen_events
  pub backed : Backed i.seen_events i.seen_logical

NamedEvents-filter :
    (keep : String × ℕ → Bool) (es : List (String × ℕ))
    → NamedEvents es
    → NamedEvents (filter keep es)
NamedEvents-filter keep [] n = tt
NamedEvents-filter keep ((id, t) ∷ es) n = elim (Bool-cases (keep (id, t))) [
  | inl e ↦ rw e (n.0, NamedEvents-filter keep es (n.1))
  | inr e ↦ rw e (NamedEvents-filter keep es (n.1))
]

NamedEvents-delete :
    (k : String) (es : List (String × ℕ)) → NamedEvents es → NamedEvents (delete k es)
NamedEvents-delete k [] n = tt
NamedEvents-delete k ((id, t) ∷ es) n = elim (Bool-cases (id == k)) [
  | inl e ↦ rw e (NamedEvents-delete k es (n.1))
  | inr e ↦ rw e (n.0, NamedEvents-delete k es (n.1))
]

NamedEvents-insert :
    (k : String) (v : ℕ) (es : List (String × ℕ))
    → k ≢ ""
    → NamedEvents es
    → NamedEvents (insert k v es)
NamedEvents-insert k v [] a n = (a, tt)
NamedEvents-insert k v ((id, t) ∷ es) a n = elim (Bool-cases (id == k)) [
  | inl e ↦ rw e (a, n.1)
  | inr e ↦ rw e (n.0, NamedEvents-insert k v es a (n.1))
]

Backed-filter :
    (events : List (String × ℕ)) (ls : List (String × String))
    → Backed events (filter (λ e. has e.1 events) ls)
Backed-filter events [] = tt
Backed-filter events ((l, id) ∷ ls) = elim (Bool-cases (has id events)) [
  | inl e ↦ rw e (e, Backed-filter events ls)
  | inr e ↦ rw e (Backed-filter events ls)
]

Backed-delete :
    (k : String) (events : List (String × ℕ)) (ls : List (String × String))
    → Backed events ls
    → Backed (delete k events) (filter (λ e. not (e.1 == k)) ls)
Backed-delete k events [] b = tt
Backed-delete k events ((l, id) ∷ ls) b = elim (Bool-cases (id == k)) [
  | inl e ↦ rw e (Backed-delete k events ls (b.1))
  | inr e ↦
      let still : has id (delete k events) ≡ true =
        ground
          (arith, b.0, lookup-delete k id events, string_eq.beq_iff k id, string_eq.beq_iff id k) in
      rw e (still, Backed-delete k events ls (b.1))
]

Backed-insert :
    (k : String) (v : ℕ) (events : List (String × ℕ)) (ls : List (String × String))
    → Backed events ls
    → Backed (insert k v events) ls
Backed-insert k v events [] b = tt
Backed-insert k v events ((l, id) ∷ ls) b =
    (ground (arith, b.0, lookup-insert k id v events), Backed-insert k v events ls (b.1))

Backed-claim :
    (logical id : String) (events : List (String × ℕ)) (ls : List (String × String))
    → has id events ≡ true
    → Backed events ls
    → Backed events (insert logical id ls)
Backed-claim logical id events [] h b = (h, tt)
Backed-claim logical id events ((l, x) ∷ ls) h b = elim (Bool-cases (l == logical)) [
  | inl e ↦ rw e (h, b.1)
  | inr e ↦ rw e (b.0, Backed-claim logical id events ls h (b.1))
]

named_of_has : (k : String) (es : List (String × ℕ)) → NamedEvents es → has k es ≡ true → k ≢ ""
named_of_has k [] n h = absurd (ground arith)
named_of_has k ((id, t) ∷ es) n h = elim (Bool-cases (id == k)) [
  | inl e ↦ subst (λ x. x ≢ "") ((string_eq.beq_iff id k).0 e) (n.0)
  | inr e ↦ named_of_has k es (n.1) (ground arith)
]

-- The oldest of some named entries is one of them.
oldest_from-has :
    (o : String × ℕ) (es : List (String × ℕ))
    → o.0 ≢ ""
    → NamedEvents es
    → ((oldest_from o es).0 ≡ o.0) ⊎ (has (oldest_from o es).0 es ≡ true)
unfolding oldest_from
oldest_from-has o [] a n = inl refl
oldest_from-has o ((id, t) ∷ es) a n = elim (Bool-cases ((o.0 == "") || before t o.1)) [
  | inl e ↦ elim (oldest_from-has (id, t) es (n.0) (n.1)) [
    | inl same ↦ inr (ground (arith, same, string_eq.beq_iff id id))
    | inr later ↦ inr (ground (arith, later))
  ]
  | inr e ↦ elim (oldest_from-has o es a (n.1)) [
    | inl same ↦ inl (ground (arith, same))
    | inr later ↦ inr (ground (arith, later))
  ]
]

-- With an entry there, the oldest one has a name and is remembered.
oldest_from-start :
    (es : List (String × ℕ))
    → NamedEvents es
    → 0 < length es
    → let id = (oldest_from ("", 0) es).0 in (id ≢ "") × (has id es ≡ true)
unfolding oldest_from
oldest_from-start [] n h = absurd (omega arith)
oldest_from-start ((id, t) ∷ es) n h = elim (oldest_from-has (id, t) es (n.0) (n.1)) [
  | inl same ↦ (λ x. n.0 (sym same ∙ x), ground (arith, same, string_eq.beq_iff id id))
  | inr later ↦ (named_of_has (oldest_from (id, t) es).0 es (n.1) later, ground (arith, later))
]

-- Making room in a full inbox makes room.
evict_oldest-Inv :
    (i : Inbox)
    → Inv i
    → let room = evict_oldest i in
      Inv room
      × (i.max_entries ≤ length i.seen_events → length room.seen_events + 1 ≤ room.max_entries)
unfolding evict_oldest
evict_oldest-Inv i v =
    let id = (oldest_from ("", 0) i.seen_events).0 in
    elim (Bool-cases (id == "")) [
      | inl e ↦ rw e (
        v,
        λ full.
            let (named, _) = oldest_from-start i.seen_events v.named (omega arith) in
            absurd (named ((string_eq.beq_iff id "").0 e)),
      )
      | inr e ↦ rw e (
        record {
          room = v.room;
          bounded = omega (arith, length-delete-le id i.seen_events);
          named = NamedEvents-delete id i.seen_events v.named;
          backed = Backed-delete id i.seen_events i.seen_logical v.backed;
        },
        λ full.
            let (_, there_is) = oldest_from-start i.seen_events v.named (omega arith) in
            omega (arith, length-delete-lt id i.seen_events there_is),
      )
    ]

evict_expired-Inv : (now : ℕ) (i : Inbox) → Inv i → Inv (evict_expired now i)
unfolding evict_expired
evict_expired-Inv now i v = record {
  room = v.room;
  bounded = omega (arith, length-filter-le (is_fresh i.ttl now) i.seen_events);
  named = NamedEvents-filter (is_fresh i.ttl now) i.seen_events v.named;
  backed = Backed-filter (filter (is_fresh i.ttl now) i.seen_events) i.seen_logical;
}

remember-Inv :
    (id logical : String) (now : ℕ) (i : Inbox) → id ≢ "" → Inv i → Inv (remember id logical now i)
unfolding remember
remember-Inv id logical now i a v = elim (Bool-cases (leb i.max_entries (length i.seen_events))) [
  | inl full ↦
      let (w, room) = evict_oldest-Inv i v in
      rw full (stored (evict_oldest i) w (room (leb→le i.max_entries (length i.seen_events) full)))
  | inr short ↦ rw short (stored i v (ground arith))
]
  where
    stored :
        (j : Inbox)
        → Inv j
        → length j.seen_events + 1 ≤ j.max_entries
        → Inv (record j {
          seen_events = insert id now j.seen_events;
          seen_logical = insert logical id j.seen_logical;
        })
    stored j w r = record {
      room = w.room;
      bounded = ground (arith, length-insert id now j.seen_events);
      named = NamedEvents-insert id now j.seen_events a w.named;
      backed =
          Backed-claim logical id (insert id now j.seen_events) j.seen_logical
            (ground (arith, lookup-insert id id now j.seen_events, string_eq.beq_iff id id))
            (Backed-insert id now j.seen_events j.seen_logical w.backed);
    }

module _ (text : LogicalKey → String) where
  -- An observation of an event whose id is not empty keeps the inbox within its size, without an
  -- empty id, and with every place of a session claimed by an event that it remembers.
  pub observe-Inv :
      (id : String) (key : LogicalKey) (now : ℕ) (i : Inbox)
      → id ≢ ""
      → Inv i
      → Inv (observe text id key now i).1
  unfolding observe
  observe-Inv id key now i a v = ground (
    arith,
    evict_expired-Inv now i v,
    remember-Inv id (text key) now (evict_expired now i) a (evict_expired-Inv now i v),
  )
