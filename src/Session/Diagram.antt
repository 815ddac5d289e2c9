-- ===== src/Session/Diagram.antt =====
-- The diagram of the handshake, and that the code follows it.
use nostmesh.Base.{
  ℕ, ◌≡◌, ◌⊎◌, ◌≢◌, true, arith, inl, inr, refl, ap, List, [], ◌∷◌, In, here, there,
}
use nostmesh.Base.Outcome.{err, ok, final, Outcome}
use nostmesh.Session.Types.{
  Handshake, Error, Codec, is_terminal, Role, State, initiator, responder, idle, request_sent,
  request_received, offer_sent, offer_received, connecting, established,
}
use nostmesh.Session.Start.{fail, close}
use nostmesh.Session.Checks.{check_alive, record_seq, bind_peer_tunnel_key}
use nostmesh.Session.Transitions.{
  build_request, receive_request, build_offer, receive_offer, build_accept, receive_accept,
  receive_ready, confirm_established, hash_offer,
}
use nostmesh.Session.Events.{
  Event, attempt, send_request, get_request, send_offer, get_offer, send_accept, get_accept,
  get_ready, confirm, Input, event, failing, closing, apply, run,
}
use nostmesh.Session.Refusals.{attempt-SameButSeen, terminal_refuses}

-- The edges that an event may take: the role of the node, and the states before and after.
abbrev pub Edge : Event → Role → State → State → Type 0
Edge (send_request _ _) r s t = (r ≡ initiator) × (s ≡ idle) × (t ≡ request_sent)
Edge (get_request _ _ _) r s t = (r ≡ responder) × (s ≡ idle) × (t ≡ request_received)
Edge (send_offer _ _) r s t = (r ≡ responder) × (s ≡ request_received) × (t ≡ offer_sent)
Edge (get_offer _ _) r s t = (r ≡ initiator) × (s ≡ request_sent) × (t ≡ offer_received)
Edge send_accept r s t = (r ≡ initiator) × (s ≡ offer_received) × (t ≡ connecting)
Edge (get_accept _ _) r s t = (r ≡ responder) × (s ≡ offer_sent) × (t ≡ connecting)
Edge (get_ready _) r s t = ((s ≡ connecting) ⊎ (s ≡ established)) × (t ≡ s)
Edge confirm r s t = (s ≡ connecting) × (t ≡ established)

established_or_not : (s : State) → (s ≡ established) ⊎ (s ≢ established)
established_or_not established = inl refl
established_or_not idle = inr (λ p. cc)
established_or_not _ = inr (λ p. cc)

module _ (codec : Codec) where
  -- An event that succeeds takes an edge of the diagram: the node has the role of the edge, was in
  -- the state where it starts, and is in the state where it ends; a `session.ready` leaves the
  -- state.
  pub attempt-Edge :
      (e : Event) (now : ℕ) (h k : Handshake)
      → attempt codec e now h ≡ ok tt k
      → Edge e h.role h.state k.state
  unfolding attempt build_request receive_request build_offer receive_offer build_accept
      receive_accept receive_ready confirm_established check_alive record_seq bind_peer_tunnel_key
      hash_offer
  attempt-Edge (send_request nonce life) now h k t = ground arith
  attempt-Edge (get_request m seq auth) now h k t = ground arith
  attempt-Edge (get_offer m seq) now h k t = ground arith
  attempt-Edge _ now h k t = ground arith

  -- Seen or not, one attempt leaves the state or takes an edge.
  step-state :
      (e : Event) (now : ℕ) (h : Handshake)
      → let k = final (attempt codec e now h) in (k.state ≡ h.state) ⊎ Edge e h.role h.state k.state
  step-state e now h = go (attempt codec e now h) refl
    where
      go :
          (o : Outcome Handshake Error (Unit {0}))
          → attempt codec e now h ≡ o
          → ((final o).state ≡ h.state) ⊎ Edge e h.role h.state (final o).state
      go (ok _ k) p = inr (attempt-Edge e now h k p)
      go (err x k) p = inl (ap (λ s. s.state) (attempt-SameButSeen codec e now h k x p))

  established_by_confirm :
      (e : Event) (now : ℕ) (h : Handshake)
      → (final (attempt codec e now h)).state ≡ established
      → (h.state ≡ established) ⊎ (e ≡ confirm)
  established_by_confirm (send_request n l) now h p =
      ground (arith, step-state (send_request n l) now h)
  established_by_confirm (get_request m s a) now h p =
      ground (arith, step-state (get_request m s a) now h)
  established_by_confirm (send_offer n l) now h p =
      ground (arith, step-state (send_offer n l) now h)
  established_by_confirm (get_offer m s) now h p = ground (arith, step-state (get_offer m s) now h)
  established_by_confirm send_accept now h p = ground (arith, step-state send_accept now h)
  established_by_confirm (get_accept m s) now h p =
      ground (arith, step-state (get_accept m s) now h)
  established_by_confirm (get_ready s) now h p = ground (arith, step-state (get_ready s) now h)
  established_by_confirm confirm now h p = inr refl

  -- One input establishes a session only if it is a confirmation.
  apply-established :
      (i : Input) (h : Handshake)
      → (apply codec i h).state ≡ established
      → (h.state ≡ established) ⊎ ((now : ℕ) × (i ≡ event now confirm))
  unfolding apply fail close
  apply-established (event now e) h p = elim (established_by_confirm e now h p) [
    | inl q ↦ inl q
    | inr q ↦ inr (now, ap (event now) q)
  ]
  apply-established (failing now r) h p = cc
  apply-established (closing now) h p = cc

  -- A handshake that becomes established was confirmed by this node on the way: messages of the
  -- peer alone, `session.ready` among them, do not do it.
  pub run-established :
      (is : List Input) (h : Handshake)
      → h.state ≢ established
      → (run codec is h).state ≡ established
      → (now : ℕ) × In (event now confirm) is
  unfolding run
  run-established [] h n p = absurd (n p)
  run-established (i ∷ is) h n p =
      let h' = apply codec i h in
      elim (established_or_not h'.state) [
        | inr m ↦ let (now, w) = run-established is h' m p in (now, there w)
        | inl q ↦ elim (apply-established i h q) [
          | inl old ↦ absurd (n old)
          | inr (now, c) ↦ (now, here c)
        ]
      ]

  apply-is_terminal :
      (i : Input) (h : Handshake)
      → is_terminal h.state ≡ true
      → is_terminal (apply codec i h).state ≡ true
  unfolding apply fail close
  apply-is_terminal (event now e) h t = ground (arith, terminal_refuses codec e now h t)
  apply-is_terminal (failing now r) h t = refl
  apply-is_terminal (closing now) h t = refl

  -- A finished handshake stays finished, whatever follows.
  pub run-is_terminal :
      (is : List Input) (h : Handshake)
      → is_terminal h.state ≡ true
      → is_terminal (run codec is h).state ≡ true
  unfolding run
  run-is_terminal [] h t = t
  run-is_terminal (i ∷ is) h t = run-is_terminal is (apply codec i h) (apply-is_terminal i h t)
