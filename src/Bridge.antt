-- ===== src/Bridge.antt =====
-- old_rust/crates/gateway-http-anthropic/src/sse_bridge.rs: backend events become the events of an
-- Anthropic message stream.
pub mod Event
pub mod State
pub mod WebSearch
pub mod Handlers
pub mod Complete
pub mod Protocol
mod Tests
