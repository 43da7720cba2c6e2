-- ===== src/Samples.antt =====
-- Concrete values for the interfaces that the development is written over: fixed-point numbers for
-- `float`, and what the tests need of Redis, numpy and pandas.
pub mod Fixed
pub mod Servers
pub mod Numbers
pub mod Drift
pub mod Platform
pub mod Users
pub mod TimeSort
pub mod KeyValue
pub mod Tracking
