-- ===== src/Parent.antt =====
-- src/quant/execution/parent_order.py: the parent order, its child fills and its implementation shortfall.
pub mod Fills
pub mod Shortfall
pub mod Books
pub mod Session
mod Tests
