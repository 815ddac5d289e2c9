-- ===== src/Recovery.antt =====
-- What a node removes when it goes down, and after a crash (internal/orchestrator/reconcile.go).
pub mod Reconcile
pub mod Marks
pub mod Journals
pub mod Hosts
pub mod Down
