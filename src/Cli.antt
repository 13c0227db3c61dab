-- ===== src/Cli.antt =====
-- The command line of the server: apps/server/src/cli/.
pub mod Tokens
pub mod Quotes
pub mod Arguments
pub mod Tests
