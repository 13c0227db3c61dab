-- ===== src/Sessions.antt =====
-- Sessions: apps/server/src/session-store.mjs.
pub mod Device
pub mod State
pub mod Admit
pub mod Access
pub mod Attempts
pub mod Limits
pub mod Calls
pub mod Loads
pub mod Locks
pub mod Places
pub mod Room
pub mod Tests
