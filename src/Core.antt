-- ===== src/Core.antt =====
-- src/core: the portable core.
pub mod Redact
pub mod Json
pub mod Error
pub mod Response
pub mod Plan
pub mod Events
pub mod Options
pub mod Rolekit
