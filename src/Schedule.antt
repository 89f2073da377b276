-- ===== src/Schedule.antt =====
-- src/quant/execution/algorithms.py: scheduled slices and VolumeAdaptiveVWAPScheduler.
pub mod Slices
pub mod Vwap
pub mod Forecast
pub mod Capped
mod Tests
