-- ===== src/Broker.antt =====
-- The simulated broker of backtests and paper trading:
-- crates/trader-adapters/src/simulated/broker.rs. One caller at a time holds its lock, so a method is
-- a function on the state; a poisoned lock, log lines, json metadata and moneys' names are left out.
mod State
mod Costs
mod Prices
mod Market
mod Orders
pub mod Fits
pub mod Exclusion
pub mod Placing
pub mod Fees
pub mod Cash
pub mod Entries
pub mod Lifecycle
unfoldable pub use State.*
unfoldable pub use Costs.*
unfoldable pub use Prices.*
unfoldable pub use Market.*
unfoldable pub use Orders.*
