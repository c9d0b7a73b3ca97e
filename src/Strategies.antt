-- ===== src/Strategies.antt =====
-- The strategies: crates/trader-core/src/strategies.
pub mod Checks
pub mod OpeningReversal
pub mod PullbackTrend
pub mod Low2M2sShort
pub mod BalanceArea
pub mod ValueArea
pub mod FirstPullback
pub mod RangeFade
pub mod Trendline
pub mod FailureTest
