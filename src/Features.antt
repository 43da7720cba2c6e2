-- ===== src/Features.antt =====
-- The feature store: src/ml_platform/features.
pub mod Registry
pub mod Frame
pub mod Schema
pub mod Online
pub mod RedisOnline
pub mod Config
pub mod Store
pub mod Duckdb
pub mod GroupDrift
pub mod Stats
pub mod Materialize
pub mod Api
pub mod Cli
pub mod PitJoin
mod Tests
