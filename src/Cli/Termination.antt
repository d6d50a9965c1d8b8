-- ===== src/Cli/Termination.antt =====
-- src/adapters/cli/termination.ts: the termination of a process tree on Windows.
pub mod Windows
pub mod Verified
mod Tests
