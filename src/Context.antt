-- ===== src/Context.antt =====
-- old_rust/crates/gateway-http-anthropic/src/context_management.rs: old tool results and thinking
-- are cleared from the messages of a request.
pub mod Measure
pub mod Interactions
pub mod Report
pub mod Tools
pub mod Thinking
pub mod Policy
pub mod Apply
pub mod Kinds
pub mod Outline
pub mod Cleared
pub mod Pairing
pub mod Bounds
pub mod Untouched
pub mod Positions
pub mod Owners
pub mod Limits
mod Tests
