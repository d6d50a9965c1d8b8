-- ===== src/Cli/Version.antt =====
-- src/adapters/cli/version.ts: the precedence of versions and the compatibility of an executable.
pub mod Compare
pub mod Order
pub mod Report
mod Tests
