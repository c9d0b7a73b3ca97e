-- ===== src/Live.antt =====
-- The live worker: crates/trader-cli/src/commands/paper.rs.
pub mod State
pub mod Exposure
pub mod Closing
pub mod Trace
pub mod Sends
pub mod Recorded
pub mod Looks
pub mod Expiry
pub mod Parity
pub mod Flatten
pub mod Protection
pub mod Settling
pub mod Events
pub mod Entry
pub mod Gates
pub mod Restart
pub mod Replay
pub mod Tick
pub mod Blocking
