-- ===== src/Protocol.antt =====
-- The messages that nodes exchange, and how what arrives is checked (internal/protocol).
pub mod Checks
pub mod Envelope
pub mod Fields
pub mod Window
pub mod Accepted
pub mod Messages
pub mod Only
pub mod Payloads
pub mod Announced
pub mod Depth
pub mod Nesting
pub mod Decode
pub mod Bound
pub mod Binding
