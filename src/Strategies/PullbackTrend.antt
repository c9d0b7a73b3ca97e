-- ===== src/Strategies/PullbackTrend.antt =====
-- The strategy pullback_trend_v1: crates/trader-core/src/strategies/pullback_trend_v1, the purchase after
-- a pullback in an uptrend.
pub mod Params
pub mod Trend
pub mod Setup
pub mod Analysis
pub mod Soundness
