-- ===== src/Cli/Process.antt =====
-- src/adapters/cli/process.ts: the running of one child process, and what holds of every run.
pub mod Model
pub mod Machine
pub mod Lifecycle
pub mod Output
pub mod Calm
pub mod Complete
mod Buffers
mod Tests
