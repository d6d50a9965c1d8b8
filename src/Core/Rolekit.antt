-- ===== src/Core/Rolekit.antt =====
-- src/core/rolekit.ts: the registry of roles and adapters, and the orchestration of a run.
pub mod Adapter
pub mod Registry
pub mod Distinct
pub mod Active
mod Refused
pub mod Prepare
pub mod Ending
pub mod Flow
pub mod Gate
pub mod Settle
pub mod Achieved
pub mod Own
pub mod Run
pub mod Start
pub mod Release
pub mod Finish
pub mod Returns
pub mod Compile
pub mod Forecast
mod Tests
