-- ===== src/Relay.antt =====
-- The media relay: apps/server/src/media-relay/.
pub mod Stun
pub mod Bounds
pub mod State
pub mod Registrations
pub mod Traffic
pub mod Receiving
pub mod Windows
pub mod Trust
pub mod Rates
pub mod Tests
