-- ===== src/Outbox.antt =====
-- The events that wait to be published (internal/nostr/outbox.go).
pub mod Queue
pub mod Bounds
pub mod Attempts
