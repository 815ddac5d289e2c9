-- ===== src/Session.antt =====
-- The control-plane handshake (internal/session).
pub mod Types
pub mod Start
pub mod Bytes
pub mod Checks
pub mod Transitions
pub mod Events
pub mod Refusals
pub mod Diagram
pub mod Binding
pub mod Terms
pub mod Steps
pub mod Exchange
pub mod Sequence
