-- ===== src/Gateway.antt =====
-- src/quant/execution/gateway.py: PaperExecutionGateway.
pub mod Types
pub mod Connection
pub mod Matching
pub mod Cancel
pub mod Submit
pub mod Booked
pub mod Account
pub mod Tests
