-- ===== src/Orders.antt =====
-- src/quant/execution/models.py: orders, execution reports, the exceptions and the checks that the
-- constructors make.
pub mod Types
pub mod Ensures
pub mod Validate
pub mod Tests
