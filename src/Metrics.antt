-- ===== src/Metrics.antt =====
-- src/metrics: the registry of gauges and counters, and the exporter.
pub mod Exporter
pub mod Registry
pub mod Tests
