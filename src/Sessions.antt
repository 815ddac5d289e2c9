-- ===== src/Sessions.antt =====
-- The sessions of a node with its peers (internal/orchestrator).
pub mod Table
pub mod Roam
pub mod Bounds
pub mod Keys
pub mod Moves
pub mod Hysteresis
pub mod Answered
pub mod Remembered
