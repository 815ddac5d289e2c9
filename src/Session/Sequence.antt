-- ===== src/Session/Sequence.antt =====
-- A sequence number carries one content: the record of what was seen only grows.
use nostmesh.Base.{
  ℕ, String, ◌≡◌, ◌≢◌, true, arith, ◌∙◌, List, [], ◌∷◌, Option, none, some, Option-cases, inl, inr,
  string_eq, ℕ_eq, sym,
}
use nostmesh.Base.Map.{lookup, lookup-insert}
use nostmesh.Base.Outcome.{ok, final, succeeds}
use nostmesh.Session.Types.{Handshake, Codec, Content, offer, request, accept, ready, TunnelKey}
use nostmesh.Session.Start.{fail, close}
use nostmesh.Session.Checks.{check_alive, record_seq, bind_peer_tunnel_key, digest}
use nostmesh.Session.Transitions.{
  build_request, receive_request, build_offer, receive_offer, build_accept, receive_accept,
  receive_ready, confirm_established, hash_offer,
}
use nostmesh.Session.Events.{
  Event, attempt, send_request, get_request, send_offer, get_offer, send_accept, get_accept,
  get_ready, confirm, Input, event, failing, closing, apply, run,
}

-- The sequence number and the content of an event that brings a message of the peer.
abbrev pub carried : Event → Option (ℕ × Content)
carried (get_request m n _) = some (n, request m)
carried (get_offer m n) = some (n, offer m)
carried (get_accept m n) = some (n, accept m)
carried (get_ready n) = some (n, ready)
carried _ = none

module _ (codec : Codec) where
  record_seq-lookup :
      (n : ℕ) (c : Content) (h : Handshake) (seq : ℕ) (d : String)
      → lookup seq h.seen_seq ≡ some d
      → lookup seq (final (record_seq codec n c h)).seen_seq ≡ some d
  unfolding record_seq
  record_seq-lookup n c h seq d p = elim (Option-cases (digest codec c)) [
    | inl e ↦ ground arith
    | inr (x, e) ↦ ground (arith, lookup-insert n seq x h.seen_seq)
  ]

  bind-seen_seq :
      (key : TunnelKey) (now : ℕ) (h : Handshake)
      → (final (bind_peer_tunnel_key codec key now h)).seen_seq ≡ h.seen_seq
  unfolding bind_peer_tunnel_key
  bind-seen_seq key now h = ground arith

  attempt-lookup :
      (e : Event) (now : ℕ) (h : Handshake) (seq : ℕ) (d : String)
      → lookup seq h.seen_seq ≡ some d
      → lookup seq (final (attempt codec e now h)).seen_seq ≡ some d
  unfolding attempt build_request receive_request build_offer receive_offer build_accept
      receive_accept receive_ready confirm_established check_alive hash_offer
  attempt-lookup (send_request n l) now h seq d p = ground arith
  attempt-lookup (get_request m n none) now h seq d p =
      grind (arith, bind-seen_seq, record_seq-lookup n (request m) h seq d p)
  attempt-lookup (get_request m n (some allows)) now h seq d p =
      grind (arith, bind-seen_seq, record_seq-lookup n (request m) h seq d p)
  attempt-lookup (send_offer n l) now h seq d p = ground arith
  attempt-lookup (get_offer m n) now h seq d p =
      grind (arith, bind-seen_seq, record_seq-lookup n (offer m) h seq d p)
  attempt-lookup send_accept now h seq d p = ground arith
  attempt-lookup (get_accept m n) now h seq d p =
      ground (arith, record_seq-lookup n (accept m) h seq d p)
  attempt-lookup (get_ready n) now h seq d p = ground (arith, record_seq-lookup n ready h seq d p)
  attempt-lookup confirm now h seq d p = ground arith

  run-lookup :
      (is : List Input) (h : Handshake) (seq : ℕ) (d : String)
      → lookup seq h.seen_seq ≡ some d
      → lookup seq (run codec is h).seen_seq ≡ some d
  unfolding run apply fail close
  run-lookup [] h seq d p = p
  run-lookup (event now e ∷ is) h seq d p =
      run-lookup is (final (attempt codec e now h)) seq d (attempt-lookup e now h seq d p)
  run-lookup (failing now r ∷ is) h seq d p = run-lookup is (fail r now h) seq d p
  run-lookup (closing now ∷ is) h seq d p = run-lookup is (close now h) seq d p

  -- A number that was seen with one digest is recorded again only with that digest.
  record_seq-seen :
      (n : ℕ) (c : Content) (h : Handshake) (d : String)
      → lookup n h.seen_seq ≡ some d
      → succeeds (record_seq codec n c h) ≡ true
      → digest codec c ≡ some d
  unfolding record_seq
  record_seq-seen n c h d p q = elim (Option-cases (digest codec c)) [
    | inl e ↦ absurd (ground arith)
    | inr (x, e) ↦ ground (arith, string_eq.beq_iff d x)
  ]

  digest_of_success :
      (n : ℕ) (c : Content) (h : Handshake)
      → succeeds (record_seq codec n c h) ≡ true
      → digest codec c ≢ none
  unfolding record_seq
  digest_of_success n c h q e = ground arith

  -- What is recorded is the digest.
  record_seq-stores :
      (n : ℕ) (c : Content) (h : Handshake)
      → succeeds (record_seq codec n c h) ≡ true
      → lookup n (final (record_seq codec n c h)).seen_seq ≡ digest codec c
  unfolding record_seq
  record_seq-stores n c h q = elim (Option-cases (digest codec c)) [
    | inl e ↦ absurd (ground arith)
    | inr (x, e) ↦ elim (Option-cases (lookup n h.seen_seq)) [
      | inl f ↦ ground (arith, lookup-insert n n x h.seen_seq)
      | inr (y, f) ↦ ground (arith, string_eq.beq_iff y x)
    ]
  ]

  -- An accepted message was recorded.
  accepted-succeeds :
      (e : Event) (now : ℕ) (h k : Handshake) (n : ℕ) (c : Content)
      → carried e ≡ some (n, c)
      → attempt codec e now h ≡ ok tt k
      → (succeeds (record_seq codec n c h) ≡ true)
        × (k.seen_seq ≡ (final (record_seq codec n c h)).seen_seq)
  unfolding attempt build_request receive_request build_offer receive_offer build_accept
      receive_accept receive_ready confirm_established check_alive hash_offer
  accepted-succeeds (get_request m seq none) now h k n c p q = grind (arith, bind-seen_seq)
  accepted-succeeds (get_request m seq (some f)) now h k n c p q = grind (arith, bind-seen_seq)
  accepted-succeeds (get_offer m seq) now h k n c p q = grind (arith, bind-seen_seq)
  accepted-succeeds (get_accept m seq) now h k n c p q = ground arith
  accepted-succeeds (get_ready seq) now h k n c p q = ground arith
  accepted-succeeds _ now h k n c p q = absurd (ground arith)

  -- Two messages of the peer that a handshake accepts under one sequence number, however far
  -- apart, have the same digest.
  pub accepted_same_seq :
      (e f : Event) (now later : ℕ) (h k end : Handshake) (is : List Input) (n : ℕ) (c d : Content)
      → carried e ≡ some (n, c)
      → carried f ≡ some (n, d)
      → attempt codec e now h ≡ ok tt k
      → attempt codec f later (run codec is k) ≡ ok tt end
      → digest codec c ≡ digest codec d
  accepted_same_seq e f now later h k end is n c d pe pf qe qf =
      let (first, seen) = accepted-succeeds e now h k n c pe qe in
      let (second, _) = accepted-succeeds f later (run codec is k) end n d pf qf in
      let stored : lookup n k.seen_seq ≡ digest codec c = rw seen (record_seq-stores n c h first) in
      elim (Option-cases (digest codec c)) [
        | inl x ↦ absurd (ground (arith, digest_of_success n c h first))
        | inr (x, e') ↦
            e'
            ∙ sym
                (record_seq-seen n d (run codec is k) x (run-lookup is k n x (stored ∙ e')) second)
      ]
