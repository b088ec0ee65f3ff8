-- ===== src/Core.antt =====
-- crates/core: the shapes that the other crates share.
pub mod Agent
pub mod Policy
pub mod Events
pub mod Tool
