-- ===== src/Cli.antt =====
-- src/adapters/cli: what the command-line adapters share.
pub mod Errors
pub mod Process
pub mod Version
pub mod Termination
pub mod Redaction
