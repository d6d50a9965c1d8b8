-- ===== src/Core/Options.antt =====
-- src/core/validation.ts: what an adapter may show of its options, and the options it prepares.
pub mod Pointers
pub mod Safety
pub mod Prepared
pub mod Clean
mod Tests
