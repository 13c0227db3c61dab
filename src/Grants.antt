-- ===== src/Grants.antt =====
-- Viewer grants: apps/server/src/viewer-asset-grants.mjs.
pub mod Cookies
pub mod Store
pub mod Links
pub mod Revoked
pub mod Tests
