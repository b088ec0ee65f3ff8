-- ===== src/Cli.antt =====
-- The crate nanny: the command line, and what it shares with the client library.
pub mod Sync
pub mod Folder
pub mod Discovery
pub mod Start
pub mod Supervise
pub mod Client
pub mod Certs
pub mod Packs
pub mod Identity
pub mod Rules
pub mod Components
