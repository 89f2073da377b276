-- ===== src/Heartbeat.antt =====
-- src/quant/execution/heartbeat.py: the watchdog of a connection.
pub mod Types
pub mod Listeners
pub mod Watchdog
pub mod Counts
pub mod Sequence
pub mod Silence
mod Tests
