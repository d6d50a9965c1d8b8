-- ===== src/Core/Plan.antt =====
-- src/core/execution-plan.ts: plans, their integrity, and the finalization of receipts.
pub mod Data
pub mod Encode
pub mod Normalize
pub mod Create
pub mod Integrity
pub mod Idempotent
pub mod RoundTrip
pub mod Receipt
pub mod Outcome
pub mod Finalize
pub mod Final
mod Tests
