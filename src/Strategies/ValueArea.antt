-- ===== src/Strategies/ValueArea.antt =====
-- The strategy value_area_reentry_v1: crates/trader-core/src/strategies/value_area_reentry_v1, the way
-- through yesterday's value area after an opening outside of it.
pub mod Params
pub mod Profile
pub mod Densest
pub mod Coverage
pub mod Days
pub mod Today
pub mod Setup
pub mod Entry
pub mod Analysis
pub mod Reentry
pub mod Soundness
