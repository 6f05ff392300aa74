-- ===== src/Conversation.antt =====
-- old_rust/crates/gateway-state/src/conversation.rs: the conversation-state store.
pub mod Types
pub mod Disk
pub mod Ledger
pub mod Branches
pub mod Selection
pub mod Turns
pub mod Lock
pub mod Cleanup
mod Tests
mod LockTests
