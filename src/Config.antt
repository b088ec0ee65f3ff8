-- ===== src/Config.antt =====
-- The crate nanny-config.
pub mod Pack
pub mod Settings
pub mod Tokens
