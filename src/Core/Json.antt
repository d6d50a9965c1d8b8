-- ===== src/Core/Json.antt =====
-- JSON data, as src/core/types.ts has it in `JsonValue`, and what src/core reads and writes of it.
pub mod Data
pub mod Canonical
