-- ===== src/Strategies/OpeningReversal.antt =====
-- The strategy opening_reversal_v1: crates/trader-core/src/strategies/opening_reversal_v1, the fade of a
-- test of yesterday's high or low in the first hour.
pub mod Params
pub mod Levels
pub mod Setup
pub mod Entry
pub mod Analysis
pub mod Soundness
