-- ===== src/Backtest.antt =====
-- The backtest engine over the simulated broker: crates/trader-backtest/src/engine.rs, and the
-- windows of walkforward.rs. The strategy is a parameter.
mod Engine
pub mod Metrics
pub mod Summary
pub mod Drawdown
pub mod Flat
pub mod Limits
pub mod Run
pub mod Windows
unfoldable pub use Engine.*
