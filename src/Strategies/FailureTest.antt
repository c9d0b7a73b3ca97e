-- ===== src/Strategies/FailureTest.antt =====
-- The strategy failure_test_long_v1: crates/trader-core/src/strategies/failure_test_long_v1, the purchase
-- after a failed break of a support.
pub mod Params
pub mod Momentum
pub mod Primed
pub mod Support
pub mod Level
pub mod Probe
pub mod Run
pub mod Recovery
pub mod Entry
pub mod Analysis
pub mod Soundness
