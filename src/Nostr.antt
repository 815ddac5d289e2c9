-- ===== src/Nostr.antt =====
-- Keys as text for Nostr (internal/nostr).
pub mod Bits
pub mod Roundtrip
