-- ===== src/Domain.antt =====
-- The domain types: crates/trader-domain.
pub mod Market
pub mod Signals
pub mod Orders
pub mod Trades
