-- ===== src/Tests.antt =====
-- Runs of the theorems at concrete inputs, one file for each part of the program.
mod Session
mod Routes
mod Policy
mod Inbox
mod Engine
mod Netstate
mod Recovery
mod Nostr
mod Outbox
mod Overlay
mod Sessions
mod Protocol
mod Probe
