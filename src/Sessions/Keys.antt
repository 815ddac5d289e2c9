-- ===== src/Sessions/Keys.antt =====
-- A key stays bound to a session.
use nostmesh.Base.{
  ℕ, ◌≡◌, ap, sym, subst, ◌∙◌, Bool, true, false, not, List, [], ◌∷◌, All, Option, none, some, ◌==◌,
  ℕ_eq, nat_eq_iff, arith, Bool-cases, Option-cases, inl, inr, any, nat_eq, leb, length,
}
use nostmesh.Base.Map.{lookup, lookup-insert, lookup-delete, has}
use nostmesh.Base.Outcome.{Outcome, ok, err, final}
use nostmesh.Net.{Prefix}
use nostmesh.Session.Types.{NostrKey, WireGuardKey}
use nostmesh.Session.Bytes.{bytes_eq_sound}
use nostmesh.Engine.Candidate.{permits}
use nostmesh.Sessions.Table.{
  Phase, SessionState, SessionManager, Error, fresh_session, is_active, put_session, begin,
  track_handshake, with_session, in_phase, advance_phase, record_endpoint, fail, close,
  is_other_key, bind_key, bind_tunnel_key, allow, set_allowed_ips,
}
use nostmesh.Sessions.Bounds.{
  Event, begun, tracked, advanced, located, failed_with, closed, bound, permitted, perform,
  perform_all,
}

-- The key that is bound to the session of a peer.
abbrev pub key_of : Option SessionState → Option WireGuardKey
key_of none = none
key_of (some s) = s.tunnel_public_key

abbrev pub bound_key : NostrKey → SessionManager → Option WireGuardKey
bound_key peer m = key_of (lookup peer m.sessions)

-- What neither opens a session with the peer nor ends it.
abbrev pub spares : NostrKey → Event → Bool
spares peer (begun q _ _) = not (q == peer)
spares peer (closed q) = not (q == peer)
spares peer _ = true

-- A change that keeps a key that is bound.
KeepsKey : (SessionState → Outcome SessionState Error (Unit {0})) → Type 0
KeepsKey f =
    (s : SessionState) (key : WireGuardKey)
    → s.tunnel_public_key ≡ some key
    → (final (f s)).tunnel_public_key ≡ some key

put_session-bound_key :
    (peer q : NostrKey) (s : SessionState) (key : WireGuardKey) (m : SessionManager)
    → ((q == peer) ≡ true → s.tunnel_public_key ≡ some key)
    → bound_key peer m ≡ some key
    → bound_key peer (put_session q s m) ≡ some key
unfolding put_session
put_session-bound_key peer q s key m here k = elim (Bool-cases (q == peer)) [
  | inl e ↦ ap key_of (rw e at (lookup-insert q peer s m.sessions)) ∙ here e
  | inr e ↦ ap key_of (rw e at (lookup-insert q peer s m.sessions)) ∙ k
]

with_session-bound_key :
    (peer q : NostrKey) (f : SessionState → Outcome SessionState Error (Unit {0}))
    (key : WireGuardKey) (m : SessionManager)
    → KeepsKey f
    → bound_key peer m ≡ some key
    → bound_key peer (final (with_session q f m)) ≡ some key
unfolding with_session KeepsKey
with_session-bound_key peer q f key m keeps k = elim (Option-cases (lookup q m.sessions)) [
  | inl h ↦ rw (h, with_session) k
  | inr (s, h) ↦
      rw (h, with_session)
        (go (f s) (λ e.
          let same : q ≡ peer = (nat_eq_iff q peer).0 e in
          keeps s key (sym (ap key_of (subst (λ p. lookup p m.sessions ≡ some s) same h)) ∙ k)))
]
  where
    go :
        (o : Outcome SessionState Error (Unit {0}))
        → ((q == peer) ≡ true → (final o).tunnel_public_key ≡ some key)
        → bound_key peer (
            final (elim o as (λ _. Outcome SessionManager Error (Unit {0})) [
              | err e s' ↦ err e m
              | ok _ s' ↦ ok tt (put_session q s' m)
            ]))
          ≡ some key
    go (err e s') here = k
    go (ok _ s') here = put_session-bound_key peer q s' key m here k

bind_key-KeepsKey : (key : WireGuardKey) → KeepsKey (bind_key key)
unfolding KeepsKey bind_key
bind_key-KeepsKey key s old k = elim (Bool-cases (is_other_key s.tunnel_public_key key)) [
  | inl o ↦ rw (o, bind_key) k
  | inr o ↦
      rw (o, bind_key)
        (ap some (sym (bytes_eq_sound old key (ground (arith, ap (λ t. is_other_key t key) k)))))
]

allow-KeepsKey : (allowed : List Prefix) → KeepsKey (allow allowed)
unfolding KeepsKey allow
allow-KeepsKey allowed s old k = elim (Bool-cases (any (λ p. nat_eq p.bits_plus_one 1) allowed)) [
  | inl d ↦ rw (d, allow) k
  | inr d ↦ rw (d, allow) k
]

begin-bound_key :
    (peer q : NostrKey) (id now : ℕ) (key : WireGuardKey) (m : SessionManager)
    → (q == peer) ≡ false
    → bound_key peer m ≡ some key
    → bound_key peer (final (begin q id now m)) ≡ some key
unfolding begin
begin-bound_key peer q id now key m d k = elim (Bool-cases (is_active q m)) [
  | inl a ↦ rw (a, begin) k
  | inr a ↦ elim (Bool-cases (leb m.max_sessions (length m.sessions))) [
    | inl f ↦ rw (a, f, begin) k
    | inr f ↦
        rw (a, f, begin)
          (put_session-bound_key peer q (fresh_session q id now) key m (λ e. absurd (ground arith))
            k)
  ]
]

close-bound_key :
    (peer q : NostrKey) (key : WireGuardKey) (m : SessionManager)
    → (q == peer) ≡ false
    → bound_key peer m ≡ some key
    → bound_key peer (final (close q m)) ≡ some key
unfolding close
close-bound_key peer q key m d k = elim (Bool-cases (has q m.sessions)) [
  | inr h ↦ rw (h, close) k
  | inl h ↦ rw (h, close) (ap key_of (rw d at (lookup-delete q peer m.sessions)) ∙ k)
]

perform-bound_key :
    (peer : NostrKey) (key : WireGuardKey) (e : Event) (m : SessionManager)
    → spares peer e ≡ true
    → bound_key peer m ≡ some key
    → bound_key peer (perform e m) ≡ some key
unfolding track_handshake advance_phase in_phase record_endpoint fail bind_tunnel_key
    set_allowed_ips KeepsKey
perform-bound_key peer key (begun q id now) m d k =
    begin-bound_key peer q id now key m (ground arith) k
perform-bound_key peer key (tracked q h) m d k = k
perform-bound_key peer key (advanced q phase now) m d k =
    with_session-bound_key peer q (λ s. ok tt (in_phase phase now s)) key m (λ s old h. h) k
perform-bound_key peer key (located q candidate) m d k =
    elim (Bool-cases (permits candidate.status)) [
      | inl p ↦
          rw (p, record_endpoint)
            (with_session-bound_key peer q
              (λ s. ok tt (record s { endpoint = some candidate.address })) key m (λ s old h. h) k)
      | inr p ↦ rw (p, record_endpoint) k
    ]
perform-bound_key peer key (failed_with q reason diagnostics) m d k =
    with_session-bound_key peer q
      (λ s.
        ok tt
          (record s { phase = Phase.failed; failure_reason = reason; diagnostics = diagnostics }))
      key m (λ s old h. h) k
perform-bound_key peer key (closed q) m d k = close-bound_key peer q key m (ground arith) k
perform-bound_key peer key (bound q other) m d k =
    with_session-bound_key peer q (bind_key other) key m (bind_key-KeepsKey other) k
perform-bound_key peer key (permitted q allowed) m d k =
    with_session-bound_key peer q (allow allowed) key m (allow-KeepsKey allowed) k

-- A tunnel key that is bound to a peer's session stays bound to it, whatever is asked of the table,
-- as long as no session with that peer is begun or closed.
pub perform_all-bound_key :
    (peer : NostrKey) (key : WireGuardKey) (es : List Event) (m : SessionManager)
    → All (λ e. spares peer e ≡ true) es
    → bound_key peer m ≡ some key
    → bound_key peer (perform_all es m) ≡ some key
perform_all-bound_key peer key [] m spared k = k
perform_all-bound_key peer key (e ∷ es) m (d, spared) k =
    perform_all-bound_key peer key es (perform e m) spared (perform-bound_key peer key e m d k)
