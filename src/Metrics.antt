-- ===== src/Metrics.antt =====
-- The collector's counters, metrics/.
pub mod Counters
pub mod Series
pub mod Exposition
pub mod Registry
pub mod Tests
