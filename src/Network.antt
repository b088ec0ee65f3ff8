-- ===== src/Network.antt =====
-- crates/bridge/src/network.rs: the governor in front of the runs.
pub mod RateLimiter
pub mod Auth
pub mod Router
pub mod Governor
pub mod Drain
pub mod Bind
