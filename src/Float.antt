-- ===== src/Float.antt =====
-- A Python `float`, as far as the code uses one. Nothing is computed with the format: the operations
-- are an interface, and a theorem that needs one of their properties takes `IsOrdered` as a
-- hypothesis, whose fields are rules of IEEE 754 for rounding to nearest.
mod Interface
mod Decimals
pub mod Order
pub use Interface.*
pub use Decimals.*
