-- ===== src/Core/Plan/Final/Binding.antt =====
-- A result is bound to its plan and its receipt.
use mathlib.Core.Path.{subst}
use rolekit.Common.{◌≡◌, refl, ap, ◌∙◌, Option, none, some, List, [], ◌∷◌, map, arith, All}
use rolekit.Common.Text.{Text, text_eq_sound}
use rolekit.Core.Error.{ok}
use rolekit.Core.Response.Data.{Artifact, ExecutorResponse}
use rolekit.Core.Plan.Data.{ResolvedPlan}
use rolekit.Core.Plan.Encode.{plan_json}
use rolekit.Core.Plan.Create.{digest_json}
use rolekit.Core.Plan.Receipt.{
  ExecutionReceipt, Provenance, RunResult, normalize_artifacts, result_executor,
}
use rolekit.Core.Plan.Finalize.{FinalizeEnv, run_result, match_receipt, finalize_execution}
use rolekit.Core.Plan.Final.Parts.{FinalParts, integrity_same, finalize-parts}

-- The envelope names the plan's instance, task, role and executor.
pub record IsMatched (p : ResolvedPlan) (r : ExecutionReceipt) : Type 0 where
  pub plan_digest : r.plan_digest ≡ p.plan_digest
  pub run : r.run_id ≡ p.plan.run_id
  pub task : r.task_id ≡ p.plan.content.task.task_id
  pub role : r.role_id ≡ p.plan.content.role.id
  pub executor : r.actual_executor.id ≡ p.plan.content.executor.id
  pub transport : r.actual_executor.transport ≡ p.plan.content.executor.transport

match_receipt-IsMatched :
    (p : ResolvedPlan) (r : ExecutionReceipt) → match_receipt p r ≡ ok tt → IsMatched p r
unfolding match_receipt
match_receipt-IsMatched p r h = record {
  plan_digest = text_eq_sound _ _ (ground arith);
  run = text_eq_sound _ _ (ground arith);
  task = text_eq_sound _ _ (ground arith);
  role = text_eq_sound _ _ (ground arith);
  executor = text_eq_sound _ _ (ground arith);
  transport = text_eq_sound _ _ (ground arith);
}

-- The identities of a result, all taken from the plan.
pub record IsBound (digest : Text) (p : ResolvedPlan) (result : RunResult) : Type 0 where
  pub run : result.run_id ≡ p.plan.run_id
  pub task : result.task_id ≡ p.plan.content.task.task_id
  pub role : result.role_id ≡ p.plan.content.role.id
  pub plan_digest : result.execution.plan_digest ≡ digest
  pub content_digest : result.execution.content_digest ≡ p.plan.content_digest
  pub policy : result.policy ≡ p.plan.content.policy
  pub executor : result.executor.id ≡ p.plan.content.executor.id
  pub transport : result.executor.transport ≡ p.plan.content.executor.transport
  pub artifacts :
      All
        (λ (a : Artifact × Provenance).
          (a.1.run_id ≡ p.plan.run_id)
          × (a.1.executor_id ≡ p.plan.content.executor.id)
          × (a.1.plan_digest ≡ digest))
        result.artifacts

normalize_artifacts-All :
    (artifacts : List Artifact) (run_id executor_id plan_digest run executor digest : Text)
    → run_id ≡ run
    → executor_id ≡ executor
    → plan_digest ≡ digest
    → All
        (λ (a : Artifact × Provenance).
          (a.1.run_id ≡ run) × (a.1.executor_id ≡ executor) × (a.1.plan_digest ≡ digest))
        (map
          (λ a.
            (a, record { run_id = run_id; executor_id = executor_id; plan_digest = plan_digest }))
          artifacts)
normalize_artifacts-All [] _ _ _ _ _ _ p q r = tt
normalize_artifacts-All (a ∷ rest) x y z run executor digest p q r =
    ((p, q, r), normalize_artifacts-All rest x y z run executor digest p q r)

normalize_response-All :
    (response : Option ExecutorResponse) (run_id executor_id plan_digest run executor digest : Text)
    → run_id ≡ run
    → executor_id ≡ executor
    → plan_digest ≡ digest
    → All
        (λ (a : Artifact × Provenance).
          (a.1.run_id ≡ run) × (a.1.executor_id ≡ executor) × (a.1.plan_digest ≡ digest))
        (normalize_artifacts response run_id executor_id plan_digest)
unfolding normalize_artifacts
normalize_response-All none x y z run executor digest p q r = tt
normalize_response-All (some s) x y z run executor digest p q r =
    normalize_artifacts-All s.artifacts x y z run executor digest p q r

module _ (env : FinalizeEnv) where
  open env use {plans}

  IsBound-of_parts :
      (p : ResolvedPlan) (receipt : ExecutionReceipt) (result : RunResult)
      → FinalParts env p receipt result
      → IsBound p.plan_digest p result
  unfolding run_result result_executor
  IsBound-of_parts p receipt result f =
      let m = match_receipt-IsMatched p receipt f.matched in
      rw f.made (record {
        run = m.run;
        task = m.task;
        role = m.role;
        plan_digest = refl;
        content_digest = refl;
        policy = refl;
        executor = m.executor;
        transport = m.transport;
        artifacts =
            normalize_response-All f.outcome.response receipt.run_id receipt.actual_executor.id
              p.plan_digest p.plan.run_id p.plan.content.executor.id p.plan_digest m.run m.executor
              refl;
      })

  -- A result that finalization returns carries the run, task, role, policy, executor and transport of
  -- the plan, and as plan digest the digest recomputed from the plan instance; every artifact's
  -- provenance names that run, executor and digest. The receipt's digest is the recomputed one too.
  pub finalize-IsBound :
      (p : ResolvedPlan) (receipt : ExecutionReceipt) (result : RunResult)
      → finalize_execution env p receipt ≡ ok result
      → IsBound (digest_json plans (plan_json p.plan)) p result
        × (receipt.plan_digest ≡ digest_json plans (plan_json p.plan))
  finalize-IsBound p receipt result h =
      let f = finalize-parts env p receipt result h in
      let b = IsBound-of_parts p receipt result f in
      let m = match_receipt-IsMatched p receipt f.matched in
      let same : p.plan_digest ≡ digest_json plans (plan_json p.plan) =
        ap (λ (c : ResolvedPlan). c.plan_digest) (integrity_same plans p.plan p f.checked) in
      (subst (λ d. IsBound d p result) same b, m.plan_digest ∙ same)
