-- ===== src/Core/Response.antt =====
-- src/core/response-validation.ts: what an executor answered, and its validation.
pub mod Data
pub mod Validate
pub mod Distinct
mod Coherent
pub mod Laws
mod Tests
