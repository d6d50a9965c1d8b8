-- ===== src/Core/Plan/Final/Total.antt =====
-- Finalization of a created plan comes to a result.
use rolekit.Common.{
  ℕ, true, false, ◌≡◌, refl, ◌∙◌, inl, inr, Option, none, some, List, [], arith, Bool-cases,
}
use rolekit.Common.Text.{Text, text_eq_refl}
use rolekit.Core.Json.Data.{Json}
use rolekit.Core.Error.{Result-cases, ok}
use rolekit.Core.Response.Data.{ExecutorResponse}
use rolekit.Core.Response.Validate.{Snapshot, Validation, validate_executor_response}
use rolekit.Core.Plan.Data.{ExecutionPlan, ResolvedPlan, PlanInput}
use rolekit.Core.Plan.Create.{create_execution_plan}
use rolekit.Core.Plan.Integrity.{assert_execution_plan_integrity}
use rolekit.Core.Plan.RoundTrip.{create_execution_plan-IsMade, create-integrity}
use rolekit.Core.Plan.Receipt.{ExecutionReceipt, RunResult, receipt_duration_ms}
use rolekit.Core.Plan.Outcome.{Outcome, normalized_outcome}
use rolekit.Core.Plan.Finalize.{
  FinalizeEnv, run_result, match_receipt, settle_receipt, finalize_execution, may_finalize,
  identity_of,
}
use rolekit.Core.Plan.Final.Parts.{validation_of}

-- A valid response was trusted.
valid_trusted :
    (check : Json → List Text) (o : Option Snapshot)
    → (validate_executor_response check o).valid ≡ true
    → (r : ExecutorResponse) × ((validate_executor_response check o).response ≡ some r)
unfolding validate_executor_response
valid_trusted check none h = absurd (ground arith)
valid_trusted check (some s) h = (s.response, ground arith)

reported_total :
    (plan : ExecutionPlan) (v : Validation) (r : ExecutorResponse)
    → v.valid ≡ true
    → v.response ≡ some r
    → (o : Outcome) × (normalized_outcome plan v ≡ ok o)
unfolding normalized_outcome
reported_total plan v r h t = elim (Result-cases (normalized_outcome plan v)) [
  | inl (o, fine) ↦ (o, fine)
  | inr (e, bad) ↦ absurd (ground arith)
]

rejected_total :
    (plan : ExecutionPlan) (v : Validation)
    → v.valid ≡ false
    → (o : Outcome) × (normalized_outcome plan v ≡ ok o)
unfolding normalized_outcome
rejected_total plan v h = elim (Result-cases (normalized_outcome plan v)) [
  | inl (o, fine) ↦ (o, fine)
  | inr (e, bad) ↦ absurd (ground arith)
]

-- The one throw of `normalizedOutcome` is never reached.
normalized_outcome_total :
    (plan : ExecutionPlan) (check : Json → List Text) (o : Option Snapshot)
    → (result : Outcome) × (normalized_outcome plan (validate_executor_response check o)
        ≡ ok result)
normalized_outcome_total plan check o =
    elim (Bool-cases (validate_executor_response check o).valid) [
      | inl good ↦
          let (r, trusted) = valid_trusted check o good in
          reported_total plan (validate_executor_response check o) r good trusted
      | inr bad ↦ rejected_total plan (validate_executor_response check o) bad
    ]

module _ (env : FinalizeEnv) where
  open env use {plans, parse_date, receipt_errors, check_output}

  settle_ok :
      (p : ResolvedPlan) (receipt : ExecutionReceipt) (n : ℕ) (v : Validation) (o : Outcome)
      → identity_of v.response receipt.actual_executor ≡ none
      → may_finalize p.plan.content.policy.admission v.response ≡ true
      → normalized_outcome p.plan v ≡ ok o
      → settle_receipt env p receipt n v ≡ ok (run_result p receipt n o)
  unfolding settle_receipt
  settle_ok p receipt n v o i m h = rw (i, m, h) refl

  finalize_ok :
      (p : ResolvedPlan) (receipt : ExecutionReceipt) (n : ℕ)
      → receipt_errors receipt ≡ []
      → plans.plan_errors p.plan ≡ []
      → assert_execution_plan_integrity plans p.plan ≡ ok p
      → match_receipt p receipt ≡ ok tt
      → receipt_duration_ms
          (parse_date p.plan.created_at)
          (parse_date receipt.started_at)
          (parse_date receipt.completed_at)
        ≡ ok n
      → finalize_execution env p receipt
        ≡ settle_receipt env p receipt n (validation_of env p receipt)
  unfolding finalize_execution
  finalize_ok p receipt n a b c m d = rw (a, b, c, text_eq_refl p.plan_digest, m, d) refl

  -- A receipt that fits a created plan is finalized: with no objection of the receipt schema, an
  -- envelope that names the plan, dates in order, a response that does not contradict the executor of
  -- the receipt, and a response that the plan's admission lets pass, a result is returned, whatever
  -- else the response holds.
  pub finalize_total :
      (input : PlanInput) (p : ResolvedPlan) (receipt : ExecutionReceipt) (n : ℕ)
      → create_execution_plan plans input ≡ ok p
      → receipt_errors receipt ≡ []
      → match_receipt p receipt ≡ ok tt
      → receipt_duration_ms
          (parse_date p.plan.created_at)
          (parse_date receipt.started_at)
          (parse_date receipt.completed_at)
        ≡ ok n
      → identity_of (validation_of env p receipt).response receipt.actual_executor ≡ none
      → may_finalize p.plan.content.policy.admission (validation_of env p receipt).response ≡ true
      → (result : RunResult) × (finalize_execution env p receipt ≡ ok result)
  finalize_total input p receipt n made schema matched timed identity permitted =
      let (o, outcome) =
        normalized_outcome_total p.plan (check_output p.plan.content.role.output_schema)
          receipt.response in
      (
        run_result p receipt n o,
        finalize_ok p receipt n schema (create_execution_plan-IsMade plans input p made).accepted
              (create-integrity plans input p made) matched timed
            ∙ settle_ok p receipt n (validation_of env p receipt) o identity permitted outcome,
      )
