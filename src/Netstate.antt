-- ===== src/Netstate.antt =====
-- Changes of the host, planned, recorded and undone when one fails (internal/netstate).
pub mod Journal
pub mod Store
pub mod Planning
pub mod Manager
pub mod Steps
pub mod Saved
pub mod Ahead
pub mod Updown
pub mod Rising
pub mod Rollback
pub mod Undone
pub mod Kept
pub mod Carried
pub mod Found
