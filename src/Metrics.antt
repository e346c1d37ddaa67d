-- ===== src/Metrics.antt =====
-- crates/metrics-exporter-newrelic: recording of metrics, and their report to NewRelic.
pub mod Summary
pub mod NewRelic
pub mod Opinionated
