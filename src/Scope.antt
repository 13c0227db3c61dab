-- ===== src/Scope.antt =====
-- Who may use the standing password on the local network: apps/server/src/local-session-scope.mjs.
pub mod Networks
pub mod Sessions
pub mod Nested
pub mod Links
pub mod Private
pub mod Tests
