-- ===== src/Sessions/Bounds.antt =====
-- The table stays within its size and keeps what is bound, whatever is asked of it.
use nostmesh.Base.{
  ℕ, ◌≤◌, String, ◌≡◌, refl, ap, subst, sym, ◌∙◌, true, false, ◌||◌, not, List, [], ◌∷◌, any, none,
  some, length, leb, nat_eq, nat_eq_iff, if◌then◌else◌, arith, Option-cases, Bool-cases, inl, inr,
  ℕ_eq, ◌==◌,
}
use nostmesh.Base.Map.{
  lookup, delete, has, length-insert, length-delete-le, lookup-insert, lookup-delete,
}
use nostmesh.Base.Outcome.{Outcome, ok, err, final}
use nostmesh.Net.{Prefix}
use nostmesh.Session.Types.{NostrKey, WireGuardKey, Handshake}
use nostmesh.Engine.Candidate.{Candidate, permits}
use nostmesh.Sessions.Table.{
  Phase, SessionState, SessionManager, Error, fresh_session, is_active, put_session, begin,
  track_handshake, with_session, in_phase, advance_phase, record_endpoint, fail, close,
  is_other_key, bind_key, bind_tunnel_key, allow, set_allowed_ips,
}

-- A session stands under its peer, and no default route is allowed to it.
pub record Sound (peer : NostrKey) (s : SessionState) : Type 0 where
  pub named : s.peer ≡ peer
  pub harmless : any (λ p. nat_eq p.bits_plus_one 1) s.allowed_ips ≡ false

-- No more sessions than there is room for, each sound.
pub record Inv (n : ℕ) (m : SessionManager) : Type 0 where
  pub room : m.max_sessions ≡ n
  pub bounded : length m.sessions ≤ n
  pub sound : (peer : NostrKey) (s : SessionState) → lookup peer m.sessions ≡ some s → Sound peer s

-- A change of one session that keeps it sound.
KeepsSound : (SessionState → Outcome SessionState Error (Unit {0})) → Type 0
KeepsSound f = (peer : NostrKey) (s : SessionState) → Sound peer s → Sound peer (final (f s))

module _ (n : ℕ) where
  put_session-Inv :
      (peer : NostrKey) (s : SessionState) (m : SessionManager)
      → (has peer m.sessions || not (leb n (length m.sessions))) ≡ true
      → Sound peer s
      → Inv n m
      → Inv n (put_session peer s m)
  unfolding put_session
  put_session-Inv peer s m fits sound i = record {
    room = i.room;
    bounded = ground (arith, length-insert peer s m.sessions, i.bounded);
    sound = λ q t h.
        let held : (if peer == q then some s else lookup q m.sessions) ≡ some t =
          sym (lookup-insert peer q s m.sessions) ∙ h in
        elim (Bool-cases (peer == q)) [
          | inl e ↦
              let key : peer ≡ q = (nat_eq_iff peer q).0 e in
              let same : s ≡ t = ap (λ o. elim o [ none ↦ s | some x ↦ x ]) (rw e at held) in
              subst (λ k. Sound k t) key (subst (Sound peer) same sound)
          | inr e ↦ i.sound q t (rw e at held)
        ];
  }

  with_session-Inv :
      (peer : NostrKey) (f : SessionState → Outcome SessionState Error (Unit {0}))
      (m : SessionManager)
      → KeepsSound f
      → Inv n m
      → Inv n (final (with_session peer f m))
  unfolding with_session KeepsSound
  with_session-Inv peer f m keeps i = elim (Option-cases (lookup peer m.sessions)) [
    | inl h ↦ rw (h, with_session) i
    | inr (s, h) ↦ rw (h, with_session) (go h (f s) (keeps peer s (i.sound peer s h)))
  ]
    where
      go :
          {s : SessionState}
          → lookup peer m.sessions ≡ some s
          → (o : Outcome SessionState Error (Unit {0})) → Sound peer (final o)
          → Inv n (
              final (elim o as (λ _. Outcome SessionManager Error (Unit {0})) [
                | err e s' ↦ err e m
                | ok _ s' ↦ ok tt (put_session peer s' m)
              ]))
      go h (err e s') k = i
      go h (ok _ s') k = put_session-Inv peer s' m (rw h) k i

  begin-Inv :
      (peer : NostrKey) (id now : ℕ) (m : SessionManager)
      → Inv n m
      → Inv n (final (begin peer id now m))
  unfolding begin fresh_session
  begin-Inv peer id now m i = elim (Bool-cases (is_active peer m)) [
    | inl a ↦ rw (a, begin) i
    | inr a ↦ elim (Bool-cases (leb m.max_sessions (length m.sessions))) [
      | inl f ↦ rw (a, f, begin) i
      | inr f ↦
          rw (a, f, begin)
            (put_session-Inv peer (fresh_session peer id now) m (ground (arith, i.room))
              (record { named = refl; harmless = refl }) i)
    ]
  ]

  close-Inv : (peer : NostrKey) (m : SessionManager) → Inv n m → Inv n (final (close peer m))
  unfolding close
  close-Inv peer m i = elim (Bool-cases (has peer m.sessions)) [
    | inr h ↦ rw (h, close) i
    | inl h ↦
        rw (h, close)
          (record {
            room = i.room;
            bounded = ground (arith, length-delete-le peer m.sessions, i.bounded);
            sound = λ q t l. i.sound q t (delete_keeps q t l);
          })
  ]
    where
      delete_keeps :
          (q : NostrKey) (t : SessionState)
          → lookup q (delete peer m.sessions) ≡ some t
          → lookup q m.sessions ≡ some t
      delete_keeps q t l = ground (arith, lookup-delete peer q m.sessions)

keeps_bind_key : (key : WireGuardKey) → KeepsSound (bind_key key)
unfolding KeepsSound bind_key
keeps_bind_key key peer s k = elim (Bool-cases (is_other_key s.tunnel_public_key key)) [
  | inl o ↦ rw (o, bind_key) k
  | inr o ↦ rw (o, bind_key) (record { named = k.named; harmless = k.harmless })
]

keeps_allow : (allowed : List Prefix) → KeepsSound (allow allowed)
unfolding KeepsSound allow
keeps_allow allowed peer s k = elim (Bool-cases (any (λ p. nat_eq p.bits_plus_one 1) allowed)) [
  | inl d ↦ rw (d, allow) k
  | inr d ↦ rw (d, allow) (record { named = k.named; harmless = d })
]

-- What may be asked of the table, each at a time of the clock where one is read.
pub data Event : Type 0 where
  begun : NostrKey → ℕ → ℕ → Event
  tracked : NostrKey → Handshake → Event
  advanced : NostrKey → Phase → ℕ → Event
  located : NostrKey → Candidate → Event
  failed_with : NostrKey → String → List Candidate → Event
  closed : NostrKey → Event
  bound : NostrKey → WireGuardKey → Event
  permitted : NostrKey → List Prefix → Event

abbrev pub perform : Event → SessionManager → SessionManager
perform (begun peer id now) m = final (begin peer id now m)
perform (tracked peer h) m = track_handshake peer h m
perform (advanced peer phase now) m = final (advance_phase peer phase now m)
perform (located peer candidate) m = final (record_endpoint peer candidate m)
perform (failed_with peer reason diagnostics) m = final (fail peer reason diagnostics m)
perform (closed peer) m = final (close peer m)
perform (bound peer key) m = final (bind_tunnel_key peer key m)
perform (permitted peer allowed) m = final (set_allowed_ips peer allowed m)

abbrev pub perform_all : List Event → SessionManager → SessionManager
perform_all [] m = m
perform_all (e ∷ es) m = perform_all es (perform e m)

perform-Inv : (n : ℕ) (e : Event) (m : SessionManager) → Inv n m → Inv n (perform e m)
unfolding track_handshake advance_phase in_phase record_endpoint fail bind_tunnel_key
    set_allowed_ips KeepsSound
perform-Inv n (begun peer id now) m i = begin-Inv n peer id now m i
perform-Inv n (tracked peer h) m i = record { room = i.room; bounded = i.bounded; sound = i.sound }
perform-Inv n (advanced peer phase now) m i =
    with_session-Inv n peer (λ s. ok tt (in_phase phase now s)) m
      (λ q s k. record { named = k.named; harmless = k.harmless }) i
perform-Inv n (located peer candidate) m i = elim (Bool-cases (permits candidate.status)) [
  | inl p ↦
      rw (p, record_endpoint)
        (with_session-Inv n peer (λ s. ok tt (record s { endpoint = some candidate.address })) m
          (λ q s k. record { named = k.named; harmless = k.harmless }) i)
  | inr p ↦ rw (p, record_endpoint) i
]
perform-Inv n (failed_with peer reason diagnostics) m i =
    with_session-Inv n peer
      (λ s.
        ok tt
          (record s { phase = Phase.failed; failure_reason = reason; diagnostics = diagnostics }))
      m (λ q s k. record { named = k.named; harmless = k.harmless }) i
perform-Inv n (closed peer) m i = close-Inv n peer m i
perform-Inv n (bound peer key) m i = with_session-Inv n peer (bind_key key) m (keeps_bind_key key) i
perform-Inv n (permitted peer allowed) m i =
    with_session-Inv n peer (allow allowed) m (keeps_allow allowed) i

-- Whatever is asked of the table, it never holds more sessions than it has room for, holds each
-- under its peer, and allows no default route to any, if it did so at the start.
pub perform_all-Inv :
    (n : ℕ) (es : List Event) (m : SessionManager) → Inv n m → Inv n (perform_all es m)
perform_all-Inv n [] m i = i
perform_all-Inv n (e ∷ es) m i = perform_all-Inv n es (perform e m) (perform-Inv n e m i)
