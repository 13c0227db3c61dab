-- ===== src/Control.antt =====
-- Control of the host: apps/server/src/control-lease.mjs.
pub mod Lease
pub mod Exclusive
pub mod Order
pub mod Tests
