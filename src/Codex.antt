-- ===== src/Codex.antt =====
-- old_rust/crates/gateway-backend-codex/src: how the backend's events are read.
pub mod Types
pub mod Serde
pub mod ToolCalls
pub mod OutputText
pub mod Failure
pub mod Completed
pub mod Unary
mod Tests
