-- ===== src/KillSwitch.antt =====
-- src/quant/execution/kill_switch.py: the emergency stop of all gateways.
pub mod Types
pub mod Registry
pub mod Sweep
pub mod Panic
pub mod Lockout
pub mod Cancelled
pub mod Protocol
pub mod Paper
mod Tests
