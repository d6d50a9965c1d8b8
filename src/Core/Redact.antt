-- ===== src/Core/Redact.antt =====
-- src/core/validation.ts: the redaction of sensitive values in texts and in JSON data.
pub mod Replace
pub mod Absent
pub mod JsonValue
mod Tests
