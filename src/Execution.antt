-- ===== src/Execution.antt =====
-- The engine that turns a signal into an order: crates/trader-core/src/execution/mod.rs. The broker is
-- an interface, as in the source; its state and its ids are parameters.
mod Engine
pub mod Safety
unfoldable pub use Engine.*
