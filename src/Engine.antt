-- ===== src/Engine.antt =====
-- The candidate paths of a session and what may be probed or used
-- (internal/connectivity/candidate.go and engine.go).
pub mod Candidate
pub mod Operations
pub mod Nomination
pub mod Bounds
pub mod Probed
