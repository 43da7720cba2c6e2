-- ===== src/Fraud.antt =====
-- src/ml_platform/fraud: scoring of a transaction stream, its API, and its drift monitor.
pub mod Features
pub mod Redis
pub mod Scorer
pub mod Registry
pub mod Training
pub mod Vector
pub mod Skew
pub mod Service
pub mod Db
pub mod Keys
pub mod RateLimiter
pub mod Text
pub mod Watch
pub mod Reports
pub mod Backend
pub mod Trigger
mod Tests
