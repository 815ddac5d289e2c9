-- ===== src/Session/Start.antt =====
-- How a handshake starts, what ends it from outside, and its accessors
-- (internal/session/handshake.go).
use nostmesh.Base.{
  ℕ, ◌+◌, ◌*◌, ◌%◌, ◌^◌, ℕ_eq, string_eq, Bool, true, false, not, ◌&&◌, Option, none, some, List,
  [], ◌∷◌, String, if◌then◌else◌, nat_eq, pos, is_nonpos,
}
use nostmesh.Base.Outcome.{M, Result, value, error}
use nostmesh.Base.Time.{before, add_duration, second}
use nostmesh.Session.Types.{
  Role, initiator, responder, State, idle, request_sent, request_received, offer_sent,
  offer_received, connecting, established, closed, failed, Error, no_session_id, no_local_key,
  no_peer_key, same_identity, no_tunnel_key, no_clock, Handshake, Options,
}

abbrev pub H : Type 0 → Type 0
H A = M Handshake Error A

-- Go's `==` on arrays of bytes.
abbrev pub bytes_eq : List ℕ → List ℕ → Bool
bytes_eq [] [] = true
bytes_eq [] (y ∷ ys) = false
bytes_eq (x ∷ xs) [] = false
bytes_eq (x ∷ xs) (y ∷ ys) = nat_eq x y && bytes_eq xs ys

abbrev pub all_zero : List ℕ → Bool
all_zero [] = true
all_zero (x ∷ xs) = nat_eq x 0 && all_zero xs

abbrev pub is_initiator : Role → Bool
is_initiator initiator = true
is_initiator responder = false

abbrev pub is_responder : Role → Bool
is_responder initiator = false
is_responder responder = true

-- Go's `==` on states, by the constants' numbers.
abbrev pub state_number : State → ℕ
state_number idle = 0
state_number request_sent = 1
state_number request_received = 2
state_number offer_sent = 3
state_number offer_received = 4
state_number connecting = 5
state_number established = 6
state_number closed = 7
state_number failed = 8

abbrev pub is_state : State → State → Bool
is_state s t = nat_eq (state_number s) (state_number t)

abbrev pub default_timeout : ℕ
default_timeout = 60 * second

-- The switch of `New`, in its order.
missing : Options → Option Error
missing o =
    if nat_eq o.session_id 0
    then some no_session_id
    else if nat_eq o.local_key 0
    then some no_local_key
    else if nat_eq o.peer_key 0
    then some no_peer_key
    else if nat_eq o.local_key o.peer_key
    then some same_identity
    else if all_zero o.tunnel_public
    then some no_tunnel_key
    else if nat_eq o.now 0
    then some no_clock
    else none

-- The handshake that `New` builds once its options are complete.
fresh : Options → Handshake
fresh o = record {
  role = o.role;
  session_id = o.session_id;
  local_key = o.local_key;
  peer_key = o.peer_key;
  state = idle;
  local_tunnel_public = o.tunnel_public;
  local_tunnel_private = o.tunnel_private;
  peer_tunnel = none;
  offer_hash = "";
  next_seq = 0;
  seen_seq = [];
  created_at = o.now;
  updated_at = o.now;
  deadline = add_duration o.now (if is_nonpos o.timeout then pos default_timeout else o.timeout);
  failure = "";
}

unfoldable pub new : Options → Result Error Handshake
unfolding missing fresh
new o = elim (missing o) [ none ↦ value (fresh o) | some e ↦ error e ]

unfoldable pub is_expired : Handshake → ℕ → Bool
is_expired h now = not (before now h.deadline)

-- `NextSeq` returns and consumes the number; a uint64 wraps.
unfoldable pub take_next_seq : Handshake → ℕ × Handshake
take_next_seq h = (h.next_seq, record h { next_seq = (h.next_seq + 1) % 2 ^ 64 })

unfoldable pub fail : String → ℕ → Handshake → Handshake
fail reason now h = record h { state = failed; failure = reason; updated_at = now }

unfoldable pub close : ℕ → Handshake → Handshake
close now h = record h { state = closed; updated_at = now }
