-- ===== src/Core/Plan/Receipt.antt =====
-- Receipts and results of src/core/types.ts, and the small functions of src/core/execution-plan.ts
-- that the envelope of a result is made of.
use rolekit.Common.{
  ℕ, ◌-◌, Bool, true, false, not, Option, none, some, List, [], map, if◌then◌else◌, ltb,
}
use rolekit.Common.Text.{Text, codes, text_eq}
use rolekit.Core.Json.Data.{Json}
use rolekit.Core.Error.{Result, ok, throw, invalid_contract}
use rolekit.Core.Response.Data.{
  RunStatus, ExecutionError, natural, TokenUsage, Artifact, ExecutorResponse,
}
use rolekit.Core.Response.Validate.{Snapshot}
use rolekit.Core.Plan.Data.{TargetKind, PlanExecutor, Policy}

pub record ActualExecutor : Type 0 where
  pub id : Text
  pub transport : Text
  pub executor_version : Option Text
  pub actual_provider : Option Text
  pub actual_model : Option Text

-- The response is what a frozen copy of it shows, none where it cannot be copied as JSON.
pub record ExecutionReceipt : Type 0 where
  pub plan_digest : Text
  pub run_id : Text
  pub task_id : Text
  pub role_id : Text
  pub started_at : Text
  pub completed_at : Text
  pub actual_executor : ActualExecutor
  pub response : Option Snapshot

pub record Provenance : Type 0 where
  pub run_id : Text
  pub executor_id : Text
  pub plan_digest : Text

pub record ResultExecutor : Type 0 where
  pub kind : TargetKind
  pub id : Text
  pub transport : Text
  pub executor_version : Option Text
  pub requested_provider : Option Text
  pub requested_model : Option Text
  pub actual_provider : Option Text
  pub actual_model : Option Text
  pub profile_id : Option Text
  pub profile_digest : Option Text

pub record Digests : Type 0 where
  pub plan_digest : Text
  pub content_digest : Text
  pub role_digest : Text
  pub task_digest : Text
  pub contract_digest : Text
  pub options_digest : Text

pub record RunResult : Type 0 where
  pub run_id : Text
  pub task_id : Text
  pub role_id : Text
  pub execution : Digests
  pub policy : Policy
  pub executor : ResultExecutor
  pub summary : Text
  pub artifacts : List (Artifact × Provenance)
  pub evidence : List Json
  pub usage : TokenUsage
  pub started_at : Text
  pub completed_at : Text
  pub status : RunStatus
  pub output : Option Json
  pub error : Option ExecutionError

-- The first of two values that is there, `a ?? b`.
abbrev pub or_else {ℓ} : {A : Type ℓ} → Option A → Option A → Option A
or_else none o = o
or_else (some a) o = some a

-- `createActualExecutorIdentity`: the probe's version, and the strings `version`, `provider` and
-- `model` that the response shows.
unfoldable pub create_actual_executor_identity :
    Text → Text → Option Text → Option Text → Option Text → Option Text → ActualExecutor
create_actual_executor_identity id transport probe_version version provider model = record {
  id = id;
  transport = transport;
  executor_version = or_else probe_version version;
  actual_provider = provider;
  actual_model = model;
}

-- An observed value that the receipt does not repeat.
unfoldable pub identity_differs : Option Text → Option Text → Bool
unfolding text_eq
identity_differs none actual = false
identity_differs (some observed) none = true
identity_differs (some observed) (some actual) = not (text_eq observed actual)

-- `responseIdentityError`
unfoldable pub response_identity_error : ExecutorResponse → ActualExecutor → Option Text
unfolding identity_differs
response_identity_error r actual =
    if identity_differs r.provider actual.actual_provider
    then some (codes "Execution receipt provider does not match the nested executor response.")
    else if identity_differs r.model actual.actual_model
    then some (codes "Execution receipt model does not match the nested executor response.")
    else if identity_differs r.version actual.executor_version
    then some
        (codes "Execution receipt executor version does not match the nested executor response.")
    else none

-- `receiptDurationMs`; a date is its milliseconds since the first date that JavaScript can
-- represent, none where it cannot be read.
unfoldable pub receipt_duration_ms : Option ℕ → Option ℕ → Option ℕ → Result ℕ
receipt_duration_ms (some created) (some started) (some completed_at) =
    if ltb started created
    then throw invalid_contract
        (codes "Execution receipt startedAt must not precede execution plan createdAt.")
    else if ltb completed_at started
    then throw invalid_contract (codes "Execution receipt completedAt must not precede startedAt.")
    else ok (completed_at - started)
receipt_duration_ms _ _ _ =
    throw invalid_contract
      (codes "Execution plan and receipt timestamps must be valid ISO timestamps.")

-- `resultExecutor`
unfoldable pub result_executor : PlanExecutor → ActualExecutor → ResultExecutor
result_executor planned actual = record {
  kind = planned.kind;
  id = actual.id;
  transport = actual.transport;
  executor_version = actual.executor_version;
  requested_provider = planned.requested_provider;
  requested_model = planned.requested_model;
  actual_provider = actual.actual_provider;
  actual_model = actual.actual_model;
  profile_id = planned.profile_id;
  profile_digest = planned.profile_digest;
}

abbrev artifacts_of : Option ExecutorResponse → List Artifact
artifacts_of none = []
artifacts_of (some r) = r.artifacts

abbrev pub evidence_of : Option ExecutorResponse → List Json
evidence_of none = []
evidence_of (some r) = r.evidence

-- `normalizeArtifacts`
unfoldable pub normalize_artifacts :
    Option ExecutorResponse → Text → Text → Text → List (Artifact × Provenance)
normalize_artifacts response run_id executor_id plan_digest =
    map (λ a. (a, record { run_id = run_id; executor_id = executor_id; plan_digest = plan_digest }))
      (artifacts_of response)

abbrev no_usage : TokenUsage
no_usage = record {
  input_tokens = none;
  output_tokens = none;
  total_tokens = none;
  cached_input_tokens = none;
  duration_ms = none;
  cost_usd = none;
}

abbrev pub usage_of : Option ExecutorResponse → Option TokenUsage
usage_of none = none
usage_of (some r) = r.usage

-- `usageWithReceiptDuration`
unfoldable pub usage_with_receipt_duration : Option TokenUsage → ℕ → TokenUsage
usage_with_receipt_duration none n = record no_usage { duration_ms = some (natural n) }
usage_with_receipt_duration (some u) n = record u { duration_ms = some (natural n) }
