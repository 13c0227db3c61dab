-- ===== src/Peers.antt =====
-- Where a client comes from: apps/server/src/peer-network.mjs.
pub mod Addresses
pub mod Network
pub mod Ranges
pub mod Forms
pub mod Tests
