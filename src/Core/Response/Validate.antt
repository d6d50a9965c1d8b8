-- ===== src/Core/Response/Validate.antt =====
-- `validateExecutorResponse` of src/core/response-validation.ts.
use rolekit.Common.{
  Bool, true, false, not, ◌&&◌, ◌||◌, Option, none, some, List, [], ◌∷◌, ◌++◌, if◌then◌else◌,
  length, map, ◌==◌,
}
use rolekit.Common.Text.{Text, codes, text_eq, has, join, trim}
use rolekit.Core.Json.Data.{Json}
use rolekit.Core.Response.Data.{
  RunStatus, completed, JsNumber, natural, fraction, TokenUsage, Content, text, Artifact,
  ExecutorResponse,
}

-- The loop of `duplicateValues`: the values seen, and the set of duplicates in insertion order.
unfoldable pub duplicates_from : List Text → List Text → List Text → List Text
unfolding has
duplicates_from seen found [] = found
duplicates_from seen found (v ∷ vs) =
    duplicates_from (v ∷ seen)
      (if has seen v && not (has found v) then found ++ (v ∷ []) else found) vs

unfoldable pub duplicate_values : List Text → List Text
unfolding duplicates_from
duplicate_values values = duplicates_from [] [] values

-- `Number.isInteger(value) && value >= 0`, and `Number.isFinite(value) && value >= 0`
abbrev pub is_count : JsNumber → Bool
is_count (natural n) = true
is_count _ = false

abbrev pub is_measure : JsNumber → Bool
is_measure (natural n) = true
is_measure (fraction t) = true
is_measure _ = false

unfoldable pub usage_error : (JsNumber → Bool) → Text → Option JsNumber → List Text
usage_error fits message none = []
usage_error fits message (some value) = if fits value then [] else message ∷ []

abbrev token_message : Text → Text
token_message key = codes "usage." ++ (key ++ codes " must be a non-negative integer")

abbrev measure_message : Text → Text
measure_message key = codes "usage." ++ (key ++ codes " must be a finite non-negative number")

unfoldable pub usage_errors : Option TokenUsage → List Text
usage_errors none = []
usage_errors (some u) =
    usage_error is_count (token_message (codes "inputTokens")) u.input_tokens
    ++ (usage_error is_count (token_message (codes "outputTokens")) u.output_tokens
        ++ (usage_error is_count (token_message (codes "totalTokens")) u.total_tokens
            ++ (usage_error is_count (token_message (codes "cachedInputTokens"))
                  u.cached_input_tokens
                ++ (usage_error is_measure (measure_message (codes "durationMs")) u.duration_ms
                    ++ usage_error is_measure (measure_message (codes "costUsd")) u.cost_usd))))

-- A text content of white space only.
abbrev pub is_blank : Content → Bool
is_blank (text t) = length (trim t) == 0
is_blank _ = false

unfoldable pub content_errors : List Artifact → List Text
content_errors [] = []
content_errors (a ∷ rest) =
    (if is_blank a.content
      then (codes "Artifact \"" ++ (a.name ++ codes "\" content must not be empty")) ∷ []
      else [])
    ++ content_errors rest

unfoldable pub duplicate_errors : List Text → List Text
unfolding join
duplicate_errors [] = []
duplicate_errors (d ∷ ds) = (codes "Duplicate artifact names: " ++ join (codes ", ") (d ∷ ds)) ∷ []

abbrev pub output_prefix : Text
output_prefix = codes "output does not match the role schema: "

-- What the code reads of a frozen JSON snapshot: the `status` and the presence of `output` and
-- `error`, the errors of the response schema, and the snapshot at its type when there are none.
pub record Snapshot : Type 0 where
  pub status : Option Text
  pub has_output : Bool
  pub has_error : Bool
  pub schema_errors : List Text
  pub response : ExecutorResponse

pub record Validation : Type 0 where
  pub valid : Bool
  pub response : Option ExecutorResponse
  pub errors : List Text

abbrev invalid : List Text → Validation
invalid errors = record { valid = false; response = none; errors = errors }

-- Completed responses carry an output and no error, the other known ones the reverse.
unfoldable pub semantic_valid : Snapshot → Bool
unfolding text_eq
semantic_valid s = elim s.status [
  | none ↦ true
  | some status ↦
      if text_eq status (codes "completed")
      then s.has_output && not s.has_error
      else if text_eq status (codes "failed")
          || text_eq status (codes "blocked")
          || text_eq status (codes "cancelled")
      then s.has_error && not s.has_output
      else true
]

abbrev is_empty {ℓ} : {A : Type ℓ} → List A → Bool
is_empty [] = true
is_empty (x ∷ xs) = false

abbrev pub is_completed : RunStatus → Bool
is_completed completed = true
is_completed _ = false

-- The argument `check_output` is `validateStrictValue` at the role's output schema. An output that is
-- missing cannot be cloned, which is an error too.
module _ (check_output : Json → List Text) where
  unfoldable pub output_errors : RunStatus → Option Json → List Text
  output_errors completed none =
      (output_prefix ++ codes "Value contains non-JSON undefined data.") ∷ []
  output_errors completed (some output) = map (λ e. output_prefix ++ e) (check_output output)
  output_errors _ _ = []

  unfoldable pub response_errors : ExecutorResponse → List Text
  response_errors r =
      output_errors r.status r.output
      ++ (duplicate_errors (duplicate_values (map (λ (a : Artifact). a.name) r.artifacts))
          ++ (content_errors r.artifacts ++ usage_errors r.usage))

  -- none: the response could not be frozen as JSON
  unfoldable pub validate_executor_response : Option Snapshot → Validation
  validate_executor_response none =
      invalid (codes "Executor response could not be inspected as portable JSON." ∷ [])
  validate_executor_response (some s) =
      if not (semantic_valid s)
      then invalid (
          codes
            "completed responses require output and no error; all other responses require error and no output"
          ∷ [])
      else if not (is_empty s.schema_errors)
      then invalid s.schema_errors
      else record {
        valid = is_empty (response_errors s.response);
        response = some s.response;
        errors = response_errors s.response;
      }
