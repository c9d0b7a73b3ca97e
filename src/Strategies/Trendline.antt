-- ===== src/Strategies/Trendline.antt =====
-- The strategy trendline_break_test_v1: crates/trader-core/src/strategies/trendline_break_test_v1, the
-- trade against a trend whose line was broken and whose extreme is tested again.
pub mod Params
pub mod Trend
pub mod Break
pub mod Setup
pub mod Analysis
pub mod Found
pub mod Soundness
