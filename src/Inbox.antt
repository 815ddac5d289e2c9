-- ===== src/Inbox.antt =====
-- The record of the messages already seen (internal/nostr/inbox.go).
pub mod Observe
pub mod Verdicts
pub mod Bounds
