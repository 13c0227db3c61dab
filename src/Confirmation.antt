-- ===== src/Confirmation.antt =====
-- The owner's confirmation of networks: apps/server/src/network-confirmation.mjs.
pub mod Subnets
pub mod Known
pub mod Confirmed
pub mod Answers
pub mod Tests
