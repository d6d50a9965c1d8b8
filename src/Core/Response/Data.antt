-- ===== src/Core/Response/Data.antt =====
-- The executor response of src/core/types.ts, `ExecutorResponse`, with the error and usage types.
use rolekit.Common.{ℕ, Bool, Option, List}
use rolekit.Common.Text.{Text, codes}
use rolekit.Core.Json.Data.{Json}

pub data RunStatus : Type 0 where
  completed failed blocked cancelled : RunStatus

unfoldable pub status_text : RunStatus → Text
status_text completed = codes "completed"
status_text failed = codes "failed"
status_text blocked = codes "blocked"
status_text cancelled = codes "cancelled"

pub record ExecutionError : Type 0 where
  pub code : Text
  pub message : Text
  pub retryable : Bool
  pub details : Option Json

-- A JavaScript number, by what `Number.isInteger`, `Number.isFinite` and `< 0` tell of it.
pub data JsNumber : Type 0 where
  natural : ℕ → JsNumber
  fraction : Text → JsNumber  -- finite, not negative, not whole
  negative : Text → JsNumber
  not_finite : JsNumber

pub record TokenUsage : Type 0 where
  pub input_tokens : Option JsNumber
  pub output_tokens : Option JsNumber
  pub total_tokens : Option JsNumber
  pub cached_input_tokens : Option JsNumber
  pub duration_ms : Option JsNumber
  pub cost_usd : Option JsNumber

pub data Content : Type 0 where
  absent : Content
  text : Text → Content
  structured : Json → Content

pub record Artifact : Type 0 where
  pub name : Text
  pub kind : Text
  pub media_type : Option Text
  pub metadata : Option Json
  pub content : Content
  pub uri : Option Text

pub record ExecutorResponse : Type 0 where
  pub status : RunStatus
  pub summary : Text
  pub output : Option Json
  pub error : Option ExecutionError
  pub artifacts : List Artifact
  pub evidence : List Json
  pub usage : Option TokenUsage
  pub provider : Option Text
  pub model : Option Text
  pub version : Option Text
