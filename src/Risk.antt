-- ===== src/Risk.antt =====
-- src/quant/execution/risk.py: the limits, the state that they are checked against, and the firewall.
pub mod Limits
pub mod State
pub mod Updates
pub mod Firewall
pub mod Session
mod Tests
