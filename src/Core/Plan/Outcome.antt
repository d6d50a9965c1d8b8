-- ===== src/Core/Plan/Outcome.antt =====
-- `normalizedOutcome` of src/core/execution-plan.ts: what a validated response comes to.
use rolekit.Common.{
  Bool, true, false, not, ◌&&◌, Option, none, some, List, [], ◌∷◌, ◌++◌, map, filter, all,
  if◌then◌else◌,
}
use rolekit.Common.Text.{Text, codes, text_eq, join, starts_with}
use rolekit.Core.Json.Data.{Json, obj, arr, str, Items, nil, cons, end, field, texts}
use rolekit.Core.Error.{Result, ok, throw, invalid_contract}
use rolekit.Core.Response.Data.{
  RunStatus, completed, failed, ExecutionError, Artifact, ExecutorResponse,
}
use rolekit.Core.Response.Validate.{Validation, is_completed}
use rolekit.Core.Plan.Data.{ExpectedArtifact, ExecutionPlan}

pub record Outcome : Type 0 where
  pub status : RunStatus
  pub summary : Text
  pub output : Option Json
  pub error : Option ExecutionError
  pub response : Option ExecutorResponse

-- An expected artifact that the response has, by name and kind.
unfoldable pub is_present : List Artifact → ExpectedArtifact → Bool
unfolding text_eq
is_present [] e = false
is_present (a ∷ rest) e =
    if text_eq a.name e.name && text_eq a.kind e.kind then true else is_present rest e

unfoldable pub missing_artifacts : List ExpectedArtifact → List Artifact → List ExpectedArtifact
unfolding is_present
missing_artifacts expected actual = filter (λ e. not (is_present actual e)) expected

missing_json : List ExpectedArtifact → Items
missing_json [] = nil
missing_json (e ∷ es) =
    cons (obj (field (codes "name") (str e.name) (field (codes "kind") (str e.kind) end)))
      (missing_json es)

unfoldable pub missing_error : List ExpectedArtifact → ExecutionError
unfolding missing_json join
missing_error missing = record {
  code = codes "missing_artifact";
  message =
      codes "Missing artifacts: "
      ++ (join (codes ", ")
            (map (λ (e : ExpectedArtifact). e.name ++ (codes ":" ++ e.kind)) missing)
          ++ codes ".");
  retryable = false;
  details = some (obj (field (codes "missing") (arr (missing_json missing)) end));
}

abbrev executor_quoted : ExecutionPlan → Text → Text
executor_quoted plan after =
    codes "Executor \"" ++ (plan.content.executor.id ++ (codes "\"" ++ after))

-- The outcome of a response that is not valid.
unfoldable pub invalid_outcome : ExecutionPlan → List Text → Option ExecutorResponse → Outcome
unfolding join texts
invalid_outcome plan errors response =
    let output_only =
      elim response [ none ↦ false | some r ↦ is_completed r.status ]
      && elim errors [ [] ↦ false | _ ∷ _ ↦ true ]
      && all (λ e. starts_with e (codes "output does not match the role schema:")) errors in
    record {
      status = failed;
      summary =
          if output_only
          then executor_quoted plan (
              codes " returned output that does not match role \""
              ++ (plan.content.role.id ++ codes "\"."))
          else executor_quoted plan (codes " returned an invalid response.");
      output = none;
      error = some (record {
        code =
            if output_only
            then codes "output_validation_failed"
            else codes "invalid_executor_response";
        message = join (codes "; ") errors;
        retryable = false;
        details = some (obj (field (codes "errors") (arr (texts errors)) end));
      });
      response = response;
    }

-- The outcome of a valid completed response, by the expected artifacts that it lacks.
unfoldable pub completed_outcome :
    ExecutionPlan → ExecutorResponse → List ExpectedArtifact → Outcome
completed_outcome plan r [] = record {
  status = completed;
  summary = r.summary;
  output = r.output;
  error = none;
  response = some r;
}
completed_outcome plan r (m ∷ ms) = record {
  status = failed;
  summary = executor_quoted plan (codes " did not return every expected artifact.");
  output = none;
  error = some (missing_error (m ∷ ms));
  response = some r;
}

abbrev reported_outcome : ExecutorResponse → Outcome
reported_outcome r = record {
  status = r.status;
  summary = r.summary;
  output = none;
  error = r.error;
  response = some r;
}

-- `normalizedOutcome`
unfoldable pub normalized_outcome : ExecutionPlan → Validation → Result Outcome
unfolding completed_outcome missing_artifacts
normalized_outcome plan v =
    if not v.valid then ok (invalid_outcome plan v.errors v.response) else elim v.response [
      | none ↦
          throw invalid_contract
            (codes "Executor response validation succeeded without a trusted snapshot.")
      | some r ↦
          if is_completed r.status
          then ok (
              completed_outcome plan r
                (missing_artifacts plan.content.task.expected_artifacts r.artifacts))
          else ok (reported_outcome r)
    ]
