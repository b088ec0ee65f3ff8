-- ===== src/Runtime.antt =====
-- crates/runtime: the policies and the tool registry.
pub mod Enforcement
pub mod Registry
pub mod HttpGet
