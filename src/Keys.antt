-- ===== src/Keys.antt =====
-- Connection keys: apps/server/src/connection-keys.mjs and apps/web-client/src/password-entry.js.
pub mod Password
pub mod Codes
pub mod Registry
pub mod Forms
pub mod Made
pub mod Records
pub mod Invariant
pub mod Histories
pub mod Absent
pub mod Spent
pub mod Draws
pub mod Tests
