-- ===== src/Session/Events.antt =====
-- Everything that can happen to a handshake, as events, and what a sequence of them does to it.
use nostmesh.Base.{ℕ, String, List, [], ◌∷◌, Bool, Option, ℤ}
use nostmesh.Base.Outcome.{Outcome, ok, err, final}
use nostmesh.Session.Types.{
  NostrKey, SessionRequest, SessionOffer, SessionAccept, Codec, Handshake, Error,
}
use nostmesh.Session.Start.{fail, close}
use nostmesh.Session.Transitions.{
  build_request, receive_request, build_offer, receive_offer, build_accept, receive_accept,
  receive_ready, confirm_established,
}

-- The operations that a message or the local node's own decision drives.
pub data Event : Type 0 where
  send_request : String → ℤ → Event
  get_request : SessionRequest → ℕ → Option (NostrKey → Bool) → Event
  send_offer : String → ℤ → Event
  get_offer : SessionOffer → ℕ → Event
  send_accept : Event
  get_accept : SessionAccept → ℕ → Event
  get_ready : ℕ → Event
  confirm : Event

abbrev pub forget : {S E A : Type 0} → Outcome S E A → Outcome S E (Unit {0})
forget (ok a s) = ok tt s
forget (err e s) = err e s

-- What the owner of a handshake does to it: an event at a time, or an end from outside.
pub data Input : Type 0 where
  event : ℕ → Event → Input
  failing : ℕ → String → Input
  closing : ℕ → Input

module _ (codec : Codec) where
  -- The operation of an event, at a time, with its result left out.
  unfoldable pub attempt : Event → ℕ → Handshake → Outcome Handshake Error (Unit {0})
  attempt (send_request nonce life) now h = forget (build_request codec nonce life now h)
  attempt (get_request m seq auth) now h = receive_request codec m seq auth now h
  attempt (send_offer nonce life) now h = forget (build_offer codec nonce life now h)
  attempt (get_offer m seq) now h = receive_offer codec m seq now h
  attempt send_accept now h = forget (build_accept now h)
  attempt (get_accept m seq) now h = receive_accept codec m seq now h
  attempt (get_ready seq) now h = receive_ready codec seq now h
  attempt confirm now h = confirm_established now h

  unfoldable pub apply : Input → Handshake → Handshake
  apply (event now e) h = final (attempt e now h)
  apply (failing now reason) h = fail reason now h
  apply (closing now) h = close now h

  unfoldable pub run : List Input → Handshake → Handshake
  run [] h = h
  run (i ∷ is) h = run is (apply i h)
