-- ===== src/Approved.antt =====
-- The approved clients: apps/server/src/approved-clients.mjs.
pub mod State
pub mod Registration
pub mod Authentication
pub mod Sweeps
pub mod Changes
pub mod Calls
pub mod Advancing
pub mod Rights
pub mod Withdrawn
pub mod Revoked
pub mod Life
pub mod Moves
pub mod Moved
pub mod Collected
pub mod Listed
pub mod Queued
pub mod Written
pub mod Absent
pub mod Durable
pub mod Tests
