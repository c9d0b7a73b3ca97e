-- ===== src/Strategies/BalanceArea.antt =====
-- The strategy balance_area_breakout_v1: crates/trader-core/src/strategies/balance_area_breakout_v1, the
-- breakout from an area in which the price has been for days.
pub mod Params
pub mod Area
pub mod Entry
pub mod Analysis
pub mod Soundness
