-- ===== src/Entry.antt =====
-- The field for a typed key: apps/web-client/src/password-entry.js.
pub mod Symbols
pub mod Pieces
pub mod Kept
pub mod Tests
