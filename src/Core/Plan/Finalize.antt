-- ===== src/Core/Plan/Finalize.antt =====
-- `finalizeExecution` of src/core/execution-plan.ts.
use rolekit.Common.{ℕ, Bool, true, false, Option, none, some, List}
use rolekit.Common.Text.{Text, codes, text_eq}
use rolekit.Core.Json.Data.{Json}
use rolekit.Core.Error.{
  Result, ok, throw, require, assert_strict_contract, invalid_contract, ◌>>=◌, ◌>>◌,
}
use rolekit.Core.Response.Data.{completed, blocked, cancelled, ExecutorResponse}
use rolekit.Core.Response.Validate.{Validation, validate_executor_response}
use rolekit.Core.Plan.Data.{Verdict, allowed, denied, ResolvedPlan}
use rolekit.Core.Plan.Normalize.{PlanEnv}
use rolekit.Core.Plan.Integrity.{assert_execution_plan_integrity, or_throw}
use rolekit.Core.Plan.Receipt.{
  ActualExecutor, ExecutionReceipt, RunResult, response_identity_error, receipt_duration_ms,
  result_executor, evidence_of, usage_of, normalize_artifacts, usage_with_receipt_duration,
}
use rolekit.Core.Plan.Outcome.{Outcome, normalized_outcome}

-- What finalization takes from outside besides the plan's: the receipt schema's objections,
-- `Date.parse` (see `receipt_duration_ms`) and the validation of an output under an output schema.
pub record FinalizeEnv : Type 0 where
  pub plans : PlanEnv
  pub receipt_errors : ExecutionReceipt → List Text
  pub parse_date : Text → Option ℕ
  pub check_output : Json → Json → List Text

-- The throw for a response that does not agree with the receipt.
abbrev pub reject_identity : Option Text → Result (Unit {0})
reject_identity none = ok tt
reject_identity (some message) = throw invalid_contract message

abbrev pub identity_of : Option ExecutorResponse → ActualExecutor → Option Text
identity_of none actual = none
identity_of (some r) actual = response_identity_error r actual

-- What a plan with denied admission may finalize.
abbrev pub may_finalize : Verdict → Option ExecutorResponse → Bool
may_finalize allowed response = true
may_finalize (denied e) none = false
may_finalize (denied e) (some r) = elim r.status [ blocked ↦ true | cancelled ↦ true | _ ↦ false ]

unfoldable pub run_result : ResolvedPlan → ExecutionReceipt → ℕ → Outcome → RunResult
run_result checked receipt duration outcome = record {
  run_id = receipt.run_id;
  task_id = receipt.task_id;
  role_id = receipt.role_id;
  execution = record {
    plan_digest = checked.plan_digest;
    content_digest = checked.plan.content_digest;
    role_digest = checked.plan.content.role_digest;
    task_digest = checked.plan.content.task_digest;
    contract_digest = checked.plan.content.contract_digest;
    options_digest = checked.plan.content.executor.options_digest;
  };
  policy = checked.plan.content.policy;
  executor = result_executor checked.plan.content.executor receipt.actual_executor;
  summary = outcome.summary;
  artifacts =
      normalize_artifacts outcome.response receipt.run_id receipt.actual_executor.id
        checked.plan_digest;
  evidence = evidence_of outcome.response;
  usage = usage_with_receipt_duration (usage_of outcome.response) duration;
  started_at = receipt.started_at;
  completed_at = receipt.completed_at;
  status = outcome.status;
  output = elim outcome.status [ completed ↦ outcome.output | _ ↦ none ];
  error = elim outcome.status [ completed ↦ none | _ ↦ outcome.error ];
}

-- The receipt's envelope against the checked plan.
unfoldable pub match_receipt : ResolvedPlan → ExecutionReceipt → Result (Unit {0})
match_receipt checked receipt = do
  require (text_eq receipt.plan_digest checked.plan_digest)
      (codes "Execution receipt planDigest does not match the execution plan.")
  require (text_eq receipt.run_id checked.plan.run_id)
      (codes "Execution receipt runId does not match the execution plan.")
  require (text_eq receipt.task_id checked.plan.content.task.task_id)
      (codes "Execution receipt taskId does not match the execution plan.")
  require (text_eq receipt.role_id checked.plan.content.role.id)
      (codes "Execution receipt roleId does not match the execution plan.")
  require (text_eq receipt.actual_executor.id checked.plan.content.executor.id)
      (codes "Execution receipt executor id does not match the planned executor.")
  require (text_eq receipt.actual_executor.transport checked.plan.content.executor.transport)
      (codes "Execution receipt executor transport does not match the planned transport.")

module _ (env : FinalizeEnv) where
  open env use {plans, receipt_errors, parse_date, check_output}

  -- From the validated response on.
  unfoldable pub settle_receipt :
      ResolvedPlan → ExecutionReceipt → ℕ → Validation → Result RunResult
  settle_receipt checked receipt duration validation = do
    reject_identity (identity_of validation.response receipt.actual_executor)
    require (may_finalize checked.plan.content.policy.admission validation.response) (
        codes
          "An execution plan with denied admission may finalize only a blocked or cancelled response.")
    outcome ← normalized_outcome checked.plan validation
    ok (run_result checked receipt duration outcome)

  unfoldable pub finalize_execution : ResolvedPlan → ExecutionReceipt → Result RunResult
  finalize_execution resolved receipt = do
    or_throw (assert_strict_contract (codes "Execution receipt envelope") (receipt_errors receipt))
        (codes "Execution receipt could not be snapshotted.")
    assert_strict_contract (codes "Execution plan") (plans.plan_errors resolved.plan)
    checked ← assert_execution_plan_integrity plans resolved.plan
    require (text_eq resolved.plan_digest checked.plan_digest)
        (codes "Resolved execution plan planDigest does not match the plan instance.")
    match_receipt checked receipt
    duration ←
        receipt_duration_ms (parse_date checked.plan.created_at) (parse_date receipt.started_at)
          (parse_date receipt.completed_at)
    settle_receipt checked receipt duration (
        validate_executor_response (check_output checked.plan.content.role.output_schema)
          receipt.response)
