-- ===== src/Strategies/RangeFade.antt =====
-- The strategy range_extreme_fade_v1: crates/trader-core/src/strategies/range_extreme_fade_v1, the trade
-- against a failed break of the day's extreme on a day without a trend.
pub mod Params
pub mod RangeDay
pub mod Vetoes
pub mod Setup
pub mod Analysis
pub mod Found
pub mod Soundness
