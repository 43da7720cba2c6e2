-- ===== src/Monitoring/Concept.antt =====
-- src/ml_platform/monitoring/detectors/concept_drift.py: the three detectors and the run of one of
-- them over an error stream.
pub mod Ddm
pub mod PageHinkley
pub mod Adwin
pub mod Detect
mod Tests
