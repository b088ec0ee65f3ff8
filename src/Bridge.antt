-- ===== src/Bridge.antt =====
-- crates/bridge/src/lib.rs: the state of one run and the handlers that change it.
pub mod State
pub mod Wire
pub mod Attribution
pub mod ToolCall
pub mod Handlers
pub mod Template
pub mod Stable
