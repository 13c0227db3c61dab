-- ===== src/Admission.antt =====
-- The admission budget: apps/server/src/admission-budget.mjs.
pub mod State
pub mod Classes
pub mod Requests
pub mod Windows
pub mod Pace
pub mod Untouched
pub mod Asked
pub mod Minutes
pub mod Counts
pub mod Guesses
pub mod Finishing
pub mod Reach
pub mod Tries
pub mod Kept
pub mod Present
pub mod Once
pub mod Tests
