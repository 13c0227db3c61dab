-- ===== src/Connections.antt =====
-- The limits on connections: apps/server/src/server-limits.mjs.
pub mod Limits
pub mod Capped
pub mod Tests
