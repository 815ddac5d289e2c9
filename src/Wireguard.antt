-- ===== src/Wireguard.antt =====
-- The data plane of a node (internal/wireguard): the port that the program calls, and the host in
-- memory that implements it.
pub mod Port
pub mod Fake
pub mod Laws
pub mod Memory
