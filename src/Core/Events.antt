-- ===== src/Core/Events.antt =====
-- src/core/events.ts: the events of a run, as its emitter hands them out.
pub mod Emitter
pub mod Order
pub mod Terminal
pub mod Last
pub mod Redacted
mod Tests
