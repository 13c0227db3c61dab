-- ===== src/Offers.antt =====
-- The candidates in session descriptions: apps/server/src/sdp-candidates.mjs.
pub mod Lines
pub mod Candidates
pub mod Split
pub mod Filtered
pub mod Tests
