-- ===== src/Latency.antt =====
-- Latency measurements: apps/server/src/latency-probes.mjs.
pub mod Probes
pub mod Reports
pub mod Bounded
pub mod Histories
pub mod Slots
pub mod Tests
