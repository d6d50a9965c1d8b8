-- ===== src/Cli/Redaction.antt =====
-- src/adapters/cli/redaction.ts: the spans of a text that are replaced by the marker.
pub mod Spans
pub mod Cover
pub mod Blind
pub mod Found
mod Tests
