-- ===== src/Monitoring.antt =====
-- The monitoring package: src/ml_platform/monitoring.
pub mod Window
pub mod Dedup
pub mod Concept
pub mod DataDrift
pub mod Correlation
pub mod Report
pub mod Store
pub mod Aggregator
pub mod Monitor
pub mod Api
pub mod Cli
mod Tests
