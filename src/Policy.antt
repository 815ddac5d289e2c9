-- ===== src/Policy.antt =====
-- What a peer may do, and the announcements that reach the routing table
-- (internal/policy, internal/domain/routeadmission.go).
pub mod Allowlist
pub mod Decision
pub mod Admission
pub mod Router
pub mod Authority
pub mod Limits
pub mod Pipeline
