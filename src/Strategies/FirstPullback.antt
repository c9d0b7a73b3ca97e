-- ===== src/Strategies/FirstPullback.antt =====
-- The strategy breakout_first_pullback_v1:
-- crates/trader-core/src/strategies/breakout_first_pullback_v1, the purchase after the first pullback
-- from a breakout.
pub mod Params
pub mod Level
pub mod Pullback
pub mod Entry
pub mod Analysis
pub mod Found
pub mod Soundness
