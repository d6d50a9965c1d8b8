-- ===== src/Core/Response/Tests.antt =====
-- Responses at concrete values, and the theorems on their validation.
use rolekit.Common.{true, false, ◌≡◌, refl, ◌↔◌, none, some, List, [], ◌∷◌}
use rolekit.Common.Text.{Text, codes, trim, text_eq}
use rolekit.Common.SortedUnique.{IsDistinct}
use rolekit.Core.Json.Data.{Json, null}
use rolekit.Core.Response.Data.{completed, natural, negative, text, absent}
use rolekit.Core.Response.Validate.{
  duplicate_values, Snapshot, validate_executor_response, response_errors, output_errors,
  duplicate_errors, content_errors, usage_errors, usage_error,
}
use rolekit.Core.Response.Distinct.{duplicate_values-eq-nil_iff}
use rolekit.Core.Response.Coherent.{IsCoherent}
use rolekit.Core.Response.Laws.{IsSoundResponse, validate_executor_response-valid_iff}

-- Two artifacts of one name, one of them blank, and a negative duration.
abbrev snapshot : Snapshot
snapshot = record {
  status = some (codes "completed");
  has_output = true;
  has_error = false;
  schema_errors = [];
  response = record {
    status = completed;
    summary = codes "done";
    output = some null;
    error = none;
    artifacts =
        record {
          name = codes "x";
          kind = codes "k";
          content = absent;
          uri = some (codes "u");
          media_type = none;
          metadata = none;
        }
        ∷ record {
          name = codes "x";
          kind = codes "k";
          content = text (codes "  ");
          uri = none;
          media_type = none;
          metadata = none;
        }
        ∷ [];
    evidence = [];
    usage = some (record {
      input_tokens = some (natural 1);
      output_tokens = none;
      total_tokens = none;
      cached_input_tokens = none;
      duration_ms = some (negative (codes "-1"));
      cost_usd = none;
    });
    provider = none;
    model = none;
    version = none;
  };
}

abbrev accepts : Json → List Text
accepts _ = []

snapshot_errors :
    response_errors accepts snapshot.response
    ≡ codes "Duplicate artifact names: x"
      ∷ codes "Artifact \"x\" content must not be empty"
      ∷ codes "usage.durationMs must be a finite non-negative number"
      ∷ []
unfolding response_errors trim output_errors duplicate_errors duplicate_values text_eq
    content_errors usage_errors usage_error
snapshot_errors = refl

validate_executor_response-valid_iff_example :
    ((validate_executor_response accepts (some snapshot)).valid ≡ true) ↔ (
      IsCoherent snapshot
      × (snapshot.schema_errors ≡ [])
      × IsSoundResponse accepts snapshot.response)
validate_executor_response-valid_iff_example = validate_executor_response-valid_iff accepts snapshot

duplicate_values-eq-nil_iff_example :
    (duplicate_values (codes "a" ∷ codes "b" ∷ codes "a" ∷ []) ≡ [])
    ↔ IsDistinct (codes "a" ∷ codes "b" ∷ codes "a" ∷ [])
duplicate_values-eq-nil_iff_example =
    duplicate_values-eq-nil_iff (codes "a" ∷ codes "b" ∷ codes "a" ∷ [])
