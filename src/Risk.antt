-- ===== src/Risk.antt =====
-- Risk management: crates/trader-core/src/risk. Log lines and the texts of refusals are left out.
mod Config
pub mod Liquidity
mod Manager
pub mod Ceiling
pub mod Approval
pub mod Acceptance
unfoldable pub use Config.*
unfoldable pub use Manager.*
