-- ===== src/Routes.antt =====
-- The routing table: what was offered, what was chosen (internal/domain/routes.go).
pub mod Table
pub mod Select
pub mod Best
pub mod Offers
pub mod Pointwise
pub mod Kernel
pub mod WellFormed
pub mod History
