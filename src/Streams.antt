-- ===== src/Streams.antt =====
-- apps/server/src/stream-registry.mjs: admission for shared sources, one worker each, and the
-- subscriptions of the clients on them.
pub mod Plans
pub mod State
pub mod Joining
pub mod Leaving
pub mod Reach
pub mod Admission
pub mod Weights
pub mod Changes
pub mod Budget
pub mod Links
pub mod Linking
pub mod History
pub mod Updates
pub mod Sharing
pub mod Alike
pub mod Tests
