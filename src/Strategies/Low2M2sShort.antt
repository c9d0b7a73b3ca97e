-- ===== src/Strategies/Low2M2sShort.antt =====
-- The strategy low2_m2s_short_v1: crates/trader-core/src/strategies/low2_m2s_short_v1, the sale after
-- a correction in a downtrend.
pub mod Params
pub mod Trend
pub mod Setup
pub mod Analysis
pub mod Soundness
