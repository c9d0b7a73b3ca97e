-- ===== src/Decimal.antt =====
-- The decimals of the crate `rust_decimal` as a parameter of the model, with their order.
mod Defs
mod Order
pub mod Integers
pub use Defs.*
pub use Order.*
