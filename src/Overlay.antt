-- ===== src/Overlay.antt =====
-- The overlay network: its manifest and its addresses (internal/domain).
pub mod Derive
pub mod Manifest
pub mod Allocate
pub mod Placed
pub mod Table
pub mod Trust
