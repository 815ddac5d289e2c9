-- ===== src/Probe.antt =====
-- The datagrams that test a path (internal/connectivity/probe.go).
pub mod Bytes
pub mod Wire
pub mod Laws
pub mod Trip
pub mod Proof
