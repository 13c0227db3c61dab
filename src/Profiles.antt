-- ===== src/Profiles.antt =====
-- The order of the profiles: apps/server/src/profile-order.mjs.
pub mod Order
pub mod Reordered
pub mod Tests
