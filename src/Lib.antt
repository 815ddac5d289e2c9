-- ===== src/Lib.antt =====
-- A verification library for nostmesh, a mesh of WireGuard tunnels whose nodes find each other over
-- Nostr relays.
--
-- A session between two nodes opens with a handshake of signed messages, which binds the peer's
-- tunnel key to the session. The inbox lets each message through once. The connectivity engine
-- probes candidate addresses and gives out one that answered. Policy decides who may open a session
-- and which announced destinations a peer may provide; the router takes an announcement through
-- admission and policy into the routing table, whose `Select` tells the kernel what to change. The
-- manager plans a tunnel, applies it to the host through the port to WireGuard with a journal of
-- every step, and undoes it when a step fails; what a crash left is reconciled at the next start.
-- The outbox keeps events until relays take them. The members of an overlay network derive each
-- other's addresses from a manifest that its issuer signed. The table of sessions keeps what each
-- session is bound to and follows a peer that moves; an envelope is checked before it is decrypted and
-- its payload after; a probe tests a path with a key that only the two ends have.
--
--   Session      internal/session/handshake.go, internal/session/transitions.go, with the messages
--                of internal/protocol/messages.go and the keys of internal/domain/keys.go
--     Types        Role, State, Handshake, Options and the messages
--     Start        New (`new`), IsExpired, NextSeq (`take_next_seq`), Fail, Close
--     Checks       checkAlive, recordSeq, contentDigest (`digest`), bindPeerTunnelKey
--     Transitions  BuildRequest, ReceiveRequest, BuildOffer, ReceiveOffer, BuildAccept,
--                  ReceiveAccept, ReceiveReady, ConfirmEstablished, HashOffer
--     Events       the operations as events, and sequences of them
--     Exchange     the messages of two nodes, one after the other; Steps has its lemmas
--     Diagram, Refusals, Binding, Terms, Sequence   what is proved of them
--   Routes       internal/domain/routes.go
--     Table        Offer, Withdraw, WithdrawProvider, Expire
--     Select       betterThan, bestFor, holds, Select
--     Best, Offers, Pointwise, Kernel, WellFormed, History   what is proved of them
--   Policy       internal/policy, and internal/domain/routeadmission.go
--     Allowlist    Add, Revoke, Remove, Check, Authorize (allowlist.go)
--     Decision     Decide, DecideRoute, AddGroup (decision.go)
--     Admission    AdmitRoute (routeadmission.go)
--     Router       Announce, Withdraw, Disconnect, Reconcile (routing.go)
--     Authority, Limits, Pipeline   what is proved of them
--   Inbox        internal/nostr/inbox.go: Observe and its evictions (Observe); Verdicts, Bounds
--   Engine       internal/connectivity/candidate.go and engine.go (Candidate, Operations);
--                Nomination, Bounds, Probed
--   Wireguard    internal/wireguard
--     Port         the port (port.go) as a record of calls on the state of a host
--     Fake         FakeController, the host in memory (fake.go)
--     Laws, Memory   what a client may rely on, and that the host in memory keeps to it
--   Netstate     internal/netstate
--     Journal      Transaction, its marks, CompensationOrder, NeedsRecovery (journal.go)
--     Store        Save, Load, List, PendingRecovery, Delete (store.go)
--     Planning     PlanInterface, PlanRoutes (manager.go)
--     Manager      Apply with its steps and its rollback, Remove, RemoveRoute (manager.go)
--     Saved, Ahead, Steps, Updown, Rising, Rollback, Undone, Kept, Carried, Found   what is proved of
--                  them
--   Recovery     internal/orchestrator/reconcile.go: Down, Recover (Reconcile); Marks, Journals,
--                Hosts, Down
--   Outbox       internal/nostr/outbox.go: Enqueue, Pending, RecordAttempt, Remove (Queue); Bounds,
--                Attempts
--   Nostr        convertBits of internal/nostr/bech32.go (Bits); Roundtrip
--   Overlay      internal/domain
--     Derive       DeriveOverlayAddress, Subnet, NetworkPrefix (overlay.go)
--     Manifest     Validate, Subnet, Accept (manifest.go)
--     Allocate     Allocate, allocateOne, parseAssignedIPv4 (allocation.go)
--     Placed, Table, Trust   what is proved of them
--   Sessions     internal/orchestrator
--     Table        the table of sessions (session.go): Begin, AdvancePhase, RecordEndpoint, Fail, Close,
--                  BindTunnelKey, SetAllowedIPs
--     Roam         Roam, RecordObservedEndpoint, applyEndpointChange, applyRoam (session.go)
--     Answered     AnsweredSessions (driver.go)
--     Bounds, Keys, Moves, Hysteresis, Remembered   what is proved of them
--   Protocol     internal/protocol
--     Envelope, Messages   the structs, TypeOf, MatchesEnvelope (envelope.go, messages.go)
--     Checks       checks one after another, and the digits of encoding/hex
--     Fields       ValidateEnvelope and its parts (validate.go)
--     Payloads     ValidatePayload and its parts (validate.go)
--     Depth, Decode   checkDepth, DecodeEnvelope, DecodePayload (validate.go)
--     Bound        AssociatedData (envelope.go)
--     Window, Accepted, Only, Announced, Nesting, Binding   what is proved of them
--   Probe        internal/connectivity/probe.go
--     Bytes, Wire  the encoding and decoding of probes, VerifyResponse, DeriveSessionKey
--     Laws, Trip, Proof   what is proved of them
--   Net          the addresses and prefixes of Go's net/netip, by their documentation
--   Base         names and lemmas that all share: maps, outcomes, time
--   Tests        the theorems at concrete inputs
--
-- A state is a record; an operation that changes it takes it and returns it, with the outcome where
-- there is one. A handshake's operation that fails returns the handshake as the error found it. A Go
-- map is an association list in any order, so what depends on the order of iteration is not used;
-- lists that the source sorts only to show them come unsorted. A clock reading is an argument. An
-- instant counts nanoseconds from Go's zero instant, and a Nostr key is the number that its bytes
-- write. Locks serialise the calls of the parts that have them, so that a sequence of operations is
-- what happens. Loops are structural recursion on the list that they run over; the one
-- that takes groups of bits counts its turns by the bits that it holds, of which each turn takes one
-- or more.
--
-- Base64, JSON and SHA-256 are the fields of a `Codec`, any functions whatever; how fmt writes a
-- logical key of the inbox or a candidate's foundation is a parameter as well. What is said
-- of digests is not said of the messages behind them. Of them only the theorem on an exchange supposes
-- anything: that a message can be written, and that a key's text gives the key back.
--
-- SHA-256 and HKDF in the derivation of addresses, a manifest's digest and the check of its signature
-- are parameters too. A derivation may advance its counter until it is 1024, and an allocation tries
-- the counters from 0 to 1024, as the source does: what is left of them is the argument that falls.
--
-- How keys, prefixes and errors are written is a parameter of the manager (`Texts`). A call of the
-- port that fails may have changed the host; one for an interface changes nothing outside of it. A
-- write to the journal ends as data tells it, in place or not; a file holds the transaction that
-- was written to it. One reading of the clock stands for those of one call.
--
-- The readings of base64, prefixes and JSON, the bytes of a text and of a decimal number, SHA-256 and
-- HMAC are parameters of the protocol and of probes. The theorem on authenticated bytes supposes that
-- no two texts and no two numbers are written alike, those on round trips of probes that HMAC gives 32
-- bytes. The seconds of an envelope are taken to name an instant: that time.Unix wraps round near the
-- end of int64 has no model. A roam reads the clock once, and no other call comes in while it applies
-- its plan.
--
-- Not modelled: sockets, relays, the kernel's interface, configuration files, logging and the
-- command line, which are input and output; the checksum of bech32 and the driver of sessions.
pub mod Base
pub mod Net
pub mod Session
pub mod Routes
pub mod Policy
pub mod Inbox
pub mod Engine
pub mod Wireguard
pub mod Netstate
pub mod Recovery
pub mod Nostr
pub mod Outbox
pub mod Overlay
pub mod Sessions
pub mod Protocol
pub mod Probe
pub mod Tests
