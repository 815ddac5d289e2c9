-- ===== src/Tests/Session.antt =====
-- Two nodes exchange keys: runs of the theorems on handshakes.
use nostmesh.Base.{
  arith, ℕ, String, List, [], ◌∷◌, none, some, pos, ◌==◌, string_eq, if◌then◌else◌, In, ◌≡◌, refl,
  ◌+◌, ◌*◌, suc, zero, nat_eq,
}
use nostmesh.Base.Time.{second, unix_epoch}
use nostmesh.Base.Outcome.{ok, err, value}
use nostmesh.Session.Types.{
  initiator, Role, responder, idle, request_received, offer_sent, connecting, established,
  offer_mismatch, Codec, Content, request, offer, accept, ready, Handshake, Options, TunnelKey,
  SessionRequest, SessionAccept,
}
use nostmesh.Session.Start.{is_expired, new}
use nostmesh.Session.Checks.{
  check_alive, digest, record_seq, bind_peer_tunnel_key, parse_key, is_other_key, key_is_expired,
}
use nostmesh.Session.Transitions.{
  receive_request, build_offer, receive_accept, receive_ready, confirm_established, offer_of,
  hash_offer,
}
use nostmesh.Session.Events.{
  Event, Input, event, failing, closing, attempt, run, apply, get_request, get_accept, get_ready,
  confirm,
}
use nostmesh.Session.Terms.{receive_accept-build_offer}
use nostmesh.Session.Binding.{Inv, bound_key, run-bound_key, run-new-Inv}
use nostmesh.Session.Diagram.{Edge, attempt-Edge, run-established}
use nostmesh.Session.Refusals.{SameButSeen, attempt-SameButSeen}
use nostmesh.Session.Sequence.{accepted_same_seq}
use nostmesh.Session.Steps.{Ready}
use nostmesh.Session.Exchange.{exchange, exchange-Connected, Connected}

-- `n` bytes of one value.
abbrev bytes : ℕ → ℕ → List ℕ
bytes zero x = []
bytes (suc n) x = x ∷ bytes n x

abbrev name_of : List ℕ → String
name_of [] = ""
name_of (x ∷ _) = if nat_eq x 1 then "alice" else "bob"

abbrev written : Content → String
written (request m) = m.tunnel_key.public_key
written (offer m) = m.tunnel_key.public_key
written (accept m) = m.offer_hash
written ready = "ready"

-- Texts for the keys of two nodes, and a digest that keeps what it reads.
abbrev codec : Codec
codec = record {
  decode = λ text.
      if text == "alice"
      then some (bytes 32 1)
      else if text == "bob"
      then some (bytes 32 2)
      else none;
  encode = λ key. name_of key;
  marshal = λ content. some (written content);
  sha256_hex = λ text. text;
}

-- The clock stands an hour after the epoch of Unix.
abbrev start : ℕ
start = (unix_epoch + 3600) * second

abbrev options : Role → ℕ → ℕ → Options
options role mine peer = record {
  role = role;
  session_id = 99;
  local_key = mine;
  peer_key = peer;
  tunnel_public = bytes 32 mine;
  tunnel_private = bytes 32 (mine + 10);
  timeout = pos 0;
  now = start;
}

abbrev new_handshake : Role → ℕ → ℕ → Handshake
new_handshake role mine peer = record {
  role = role;
  session_id = 99;
  local_key = mine;
  peer_key = peer;
  state = idle;
  local_tunnel_public = bytes 32 mine;
  local_tunnel_private = bytes 32 (mine + 10);
  peer_tunnel = none;
  offer_hash = "";
  next_seq = 0;
  seen_seq = [];
  created_at = start;
  updated_at = start;
  deadline = start + 60 * second;
  failure = "";
}

abbrev bob : Handshake
bob = new_handshake responder 2 1

bob_starts : new (options responder 2 1) ≡ value bob
unfolding new
bob_starts = refl

abbrev key_of : String → TunnelKey
key_of name = record { public_key = name; nonce = "n"; expires_at = pos 3660 }

abbrev request_of_alice : SessionRequest
request_of_alice = record {
  capabilities = record {
    protocol_versions = pos 1 ∷ [];
    transports = "wireguard/udp" ∷ [];
    candidate_types = "host" ∷ "static" ∷ [];
    extensions = [];
  };
  tunnel_key = key_of "alice";
  overlay_address = "";
}

abbrev asked : Event
asked = get_request request_of_alice 0 none

-- Bob after the request of alice, and after his offer.
abbrev bob_asked : Handshake
bob_asked = record bob {
  state = request_received;
  peer_tunnel = some (key_of "alice");
  seen_seq = (0, "alice") ∷ [];
}

abbrev bob_offered : Handshake
bob_offered = record bob_asked { state = offer_sent; offer_hash = "bob" }

ask_bob : attempt codec asked start bob ≡ ok tt bob_asked
unfolding attempt receive_request check_alive record_seq bind_peer_tunnel_key digest parse_key
    key_is_expired is_other_key
ask_bob = refl

offer_bob :
    build_offer codec "n" (pos (60 * second)) start bob_asked
    ≡ ok (offer_of codec (key_of "bob"), "bob") bob_offered
unfolding build_offer check_alive offer_of hash_offer digest
offer_bob = refl

abbrev accepted : SessionAccept
accepted = record { offer_hash = "bob" }

abbrev bob_connecting : Handshake
bob_connecting = record bob_offered {
  state = connecting;
  seen_seq = (0, "alice") ∷ (1, "bob") ∷ [];
}

take_accept :
    receive_accept codec accepted 1 start (run codec (event start (get_ready 5) ∷ []) bob_offered)
    ≡ ok tt bob_connecting
unfolding receive_accept run apply attempt receive_ready check_alive record_seq digest
take_accept = refl

receive_accept-build_offer_example :
    digest codec (offer (offer_of codec (key_of "bob"))) ≡ some "bob"
receive_accept-build_offer_example =
    receive_accept-build_offer codec "n" (pos (60 * second)) start bob_asked bob_offered
      (offer_of codec (key_of "bob")) "bob" (event start (get_ready 5) ∷ []) accepted 1 start
      bob_connecting offer_bob take_accept

-- Bob is asked again with another key, fails and is closed.
abbrev trouble : List Input
trouble =
    event start (get_request (record request_of_alice { tunnel_key = key_of "bob" }) 1 none)
    ∷ failing start "gone"
    ∷ closing start
    ∷ []

run-bound_key_example : bound_key (run codec trouble bob_asked) ≡ some "alice"
run-bound_key_example = run-bound_key codec trouble bob_asked "alice" refl

run-new-Inv_example : Inv codec (run codec (event start asked ∷ trouble) bob)
run-new-Inv_example =
    run-new-Inv codec (options responder 2 1) bob (event start asked ∷ trouble) bob_starts

confirmed : (run codec (event start confirm ∷ []) bob_connecting).state ≡ established
unfolding run apply attempt confirm_established check_alive
confirmed = refl

run-established_example : (now : ℕ) × In (event now confirm) (event start confirm ∷ [])
run-established_example =
    run-established codec (event start confirm ∷ []) bob_connecting (λ p. cc) confirmed

take_ready :
    attempt codec (get_ready 5) start bob_connecting
    ≡ ok tt (record bob_connecting { seen_seq = (0, "alice") ∷ (1, "bob") ∷ (5, "ready") ∷ [] })
unfolding attempt receive_ready check_alive record_seq digest
take_ready = refl

take_ready_again :
    attempt codec (get_ready 5) start (
      run codec
        (event start confirm ∷ [])
        (record bob_connecting { seen_seq = (0, "alice") ∷ (1, "bob") ∷ (5, "ready") ∷ [] }))
    ≡ ok tt (record bob_connecting {
      state = established;
      seen_seq = (0, "alice") ∷ (1, "bob") ∷ (5, "ready") ∷ [];
    })
unfolding attempt receive_ready check_alive record_seq run apply confirm_established digest
take_ready_again = refl

accepted_same_seq_example : digest codec ready ≡ digest codec ready
accepted_same_seq_example =
    accepted_same_seq codec (get_ready 5) (get_ready 5) start start bob_connecting
      (record bob_connecting { seen_seq = (0, "alice") ∷ (1, "bob") ∷ (5, "ready") ∷ [] })
      (record bob_connecting {
        state = established;
        seen_seq = (0, "alice") ∷ (1, "bob") ∷ (5, "ready") ∷ [];
      })
      (event start confirm ∷ []) 5 ready ready refl refl take_ready take_ready_again

attempt-Edge_example : Edge asked responder idle request_received
attempt-Edge_example = attempt-Edge codec asked start bob bob_asked ask_bob

-- An acceptance of other terms is refused, and its number stays taken.
abbrev mistaken : Handshake
mistaken = record bob_offered { seen_seq = (0, "alice") ∷ (1, "carol") ∷ [] }

refuse_carol :
    attempt codec (get_accept (record { offer_hash = "carol" }) 1) start bob_offered
    ≡ err offer_mismatch mistaken
unfolding attempt receive_accept check_alive record_seq digest
refuse_carol = refl

attempt-SameButSeen_example : SameButSeen bob_offered mistaken
attempt-SameButSeen_example =
    attempt-SameButSeen codec (get_accept (record { offer_hash = "carol" }) 1) start bob_offered
      mistaken offer_mismatch refuse_carol

abbrev alice : Handshake
alice = new_handshake initiator 1 2

alice-Ready : Ready codec (60 * second) start alice
unfolding is_expired parse_key
alice-Ready = record {
  at_start = refl;
  in_time = refl;
  unbound = refl;
  nothing_seen = refl;
  own_key = refl;
  nonzero = refl;
}

bob-Ready : Ready codec (60 * second) start bob
unfolding is_expired parse_key
bob-Ready = record {
  at_start = refl;
  in_time = refl;
  unbound = refl;
  nothing_seen = refl;
  own_key = refl;
  nonzero = refl;
}

exchange-Connected_example :
    (ends : Handshake × Handshake) × (exchange codec (60 * second) start "n" "n'" alice bob
      ≡ some ends)
    × Connected codec (60 * second) start alice bob ends
exchange-Connected_example =
    exchange-Connected codec (60 * second) start "n" "n'" alice bob (omega arith) (λ c. refl)
      alice-Ready bob-Ready refl refl refl refl
