-- ===== src/Core/Plan/Final/Parts.antt =====
-- A successful finalization, taken apart.
use rolekit.Common.{ℕ, true, ◌≡◌, ap, inl, inr, arith}
use rolekit.Common.Text.{text_eq, text_eq_iff}
use rolekit.Core.Error.{RolekitError, Result-cases, ok, err}
use rolekit.Core.Response.Validate.{Validation, validate_executor_response}
use rolekit.Core.Plan.Data.{ExecutionPlan, ResolvedPlan}
use rolekit.Core.Plan.Encode.{plan_json}
use rolekit.Core.Plan.Normalize.{PlanEnv}
use rolekit.Core.Plan.Create.{digest_json}
use rolekit.Core.Plan.Integrity.{assert_execution_plan_integrity}
use rolekit.Core.Plan.Receipt.{ExecutionReceipt, RunResult, receipt_duration_ms}
use rolekit.Core.Plan.Outcome.{Outcome, normalized_outcome}
use rolekit.Core.Plan.Finalize.{
  FinalizeEnv, run_result, match_receipt, settle_receipt, finalize_execution, may_finalize,
}

module _ (env : PlanEnv) where
  -- The check of a plan gives back that plan, with its digest.
  pub integrity_same :
      (plan : ExecutionPlan) (checked : ResolvedPlan)
      → assert_execution_plan_integrity env plan ≡ ok checked
      → checked ≡ record { plan = plan; plan_digest = digest_json env (plan_json plan) }
  unfolding assert_execution_plan_integrity
  integrity_same plan checked h = ground arith

module _ (env : FinalizeEnv) where
  open env use {plans, parse_date, check_output}

  abbrev pub validation_of : ResolvedPlan → ExecutionReceipt → Validation
  validation_of resolved receipt =
      validate_executor_response (check_output resolved.plan.content.role.output_schema)
        receipt.response

  pub record FinalParts (resolved : ResolvedPlan) (receipt : ExecutionReceipt) (result : RunResult)
      : Type 0 where
    pub checked : assert_execution_plan_integrity plans resolved.plan ≡ ok resolved
    pub matched : match_receipt resolved receipt ≡ ok tt
    pub duration : ℕ
    pub timed :
        receipt_duration_ms
          (parse_date resolved.plan.created_at)
          (parse_date receipt.started_at)
          (parse_date receipt.completed_at)
        ≡ ok duration
    pub outcome : Outcome
    pub permitted :
        may_finalize resolved.plan.content.policy.admission
          (validation_of resolved receipt).response
        ≡ true
    pub normalized : normalized_outcome resolved.plan (validation_of resolved receipt) ≡ ok outcome
    pub made : result ≡ run_result resolved receipt duration outcome

  settle_parts :
      (resolved : ResolvedPlan) (receipt : ExecutionReceipt) (duration : ℕ) (v : Validation)
      (result : RunResult)
      → settle_receipt env resolved receipt duration v ≡ ok result
      → (outcome : Outcome) × (may_finalize resolved.plan.content.policy.admission v.response
          ≡ true)
        × (normalized_outcome resolved.plan v ≡ ok outcome)
        × (result ≡ run_result resolved receipt duration outcome)
  unfolding settle_receipt
  settle_parts resolved receipt duration v result h =
      elim (Result-cases (normalized_outcome resolved.plan v)) [
        | inr (e, bad) ↦ absurd (ground arith)
        | inl (outcome, fine) ↦ (outcome, ground arith, fine, ground arith)
      ]

  resolved_same :
      (resolved checked : ResolvedPlan)
      → checked.plan ≡ resolved.plan
      → resolved.plan_digest ≡ checked.plan_digest
      → checked ≡ resolved
  resolved_same resolved checked p d = ground arith

  refused :
      (resolved : ResolvedPlan) (receipt : ExecutionReceipt) (result : RunResult) (e : RolekitError)
      → assert_execution_plan_integrity plans resolved.plan ≡ err e
      → finalize_execution env resolved receipt ≡ ok result
      → ⊥
  unfolding finalize_execution
  refused resolved receipt result e bad h = ground arith

  checked_digest :
      (resolved checked : ResolvedPlan) (receipt : ExecutionReceipt) (result : RunResult)
      → assert_execution_plan_integrity plans resolved.plan ≡ ok checked
      → finalize_execution env resolved receipt ≡ ok result
      → text_eq resolved.plan_digest checked.plan_digest ≡ true
  unfolding finalize_execution
  checked_digest resolved checked receipt result fine h = ground arith

  parts_of_checked :
      (resolved : ResolvedPlan) (receipt : ExecutionReceipt) (result : RunResult)
      → assert_execution_plan_integrity plans resolved.plan ≡ ok resolved
      → finalize_execution env resolved receipt ≡ ok result
      → FinalParts resolved receipt result
  unfolding finalize_execution
  parts_of_checked resolved receipt result fine h =
      elim (Result-cases (
        receipt_duration_ms (parse_date resolved.plan.created_at) (parse_date receipt.started_at)
          (parse_date receipt.completed_at))) [
            | inr (e, bad) ↦ absurd (ground arith)
            | inl (duration, timed) ↦
                let (outcome, permitted, normalized, made) =
                  settle_parts resolved receipt duration (validation_of resolved receipt) result
                    (ground arith) in
                record {
                  checked = fine;
                  matched = ground arith;
                  duration = duration;
                  timed = timed;
                  outcome = outcome;
                  permitted = permitted;
                  normalized = normalized;
                  made = made;
                }
          ]

  -- A finalization that succeeds has passed every check, with the plan that it was given.
  pub finalize-parts :
      (resolved : ResolvedPlan) (receipt : ExecutionReceipt) (result : RunResult)
      → finalize_execution env resolved receipt ≡ ok result
      → FinalParts resolved receipt result
  finalize-parts resolved receipt result h =
      elim (Result-cases (assert_execution_plan_integrity plans resolved.plan)) [
        | inr (e, bad) ↦ absurd (refused resolved receipt result e bad h)
        | inl (checked, fine) ↦
            let same : checked ≡ resolved =
              resolved_same resolved checked
                (ap (λ (c : ResolvedPlan). c.plan)
                  (integrity_same plans resolved.plan checked fine))
                ((text_eq_iff _ _).0 (checked_digest resolved checked receipt result fine h)) in
            parts_of_checked resolved receipt result (rw same at fine) h
      ]
