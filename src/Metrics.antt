-- ===== src/Metrics.antt =====
-- internal/metrics: the registry of counters behind /metrics.
pub mod Registry
mod Exposition
mod Counts
mod Histogram
mod Keys
mod Tests
