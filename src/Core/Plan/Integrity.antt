-- ===== src/Core/Plan/Integrity.antt =====
-- `assertExecutionPlanIntegrity` of src/core/execution-plan.ts: a plan that is checked again before
-- its receipt is finalized.
use rolekit.Common.{Bool, List}
use rolekit.Common.Text.{Text, codes, text_eq}
use rolekit.Common.SortedUnique.{sorted_unique}
use rolekit.Core.Json.Data.{arr, texts}
use rolekit.Core.Error.{
  Result, ok, err, ◌>>=◌, ◌>>◌, throw, require, assert_strict_contract, invalid_contract,
}
use rolekit.Core.Plan.Data.{RoleSpec, TaskPacket, PlanContent, ExecutionPlan, ResolvedPlan}
use rolekit.Core.Plan.Encode.{
  role_json, task_json, contract_json, content_json, plan_json, same_json,
}
use rolekit.Core.Plan.Normalize.{
  PlanEnv, or_empty, create_execution_contract, normalized_role_and_task,
}
use rolekit.Core.Plan.Create.{digest_json}

-- Two lists of texts with one canonical text.
abbrev pub same_texts : List Text → List Text → Bool
same_texts xs ys = same_json (arr (texts xs)) (arr (texts ys))

-- `assertSemanticPlanContent`
unfoldable pub assert_semantic_plan_content :
    PlanContent → RoleSpec → TaskPacket → Result (Unit {0})
assert_semantic_plan_content content role task = do
  let expected = create_execution_contract role task
  require (same_json (contract_json content.contract) (contract_json expected))
      (codes "Execution plan contract does not match its embedded role and task snapshots.")
  require (same_texts content.policy.required_capabilities expected.required_capabilities)
      (codes "Execution plan policy requiredCapabilities do not match the contract.")
  require (same_texts content.policy.allowed_paths (sorted_unique (or_empty task.allowed_paths)))
      (codes "Execution plan policy allowedPaths do not match the task snapshot.")
  require
      (same_texts content.executor.required_secrets
        (sorted_unique content.executor.required_secrets))
      (codes "Execution plan required secret names are not normalized.")

-- Any error of the first is replaced by a fixed one.
abbrev pub or_throw {ℓ} : {A : Type ℓ} → Result A → Text → Result A
or_throw (ok a) message = ok a
or_throw (err e) message = throw invalid_contract message

module _ (env : PlanEnv) where
  open env use {plan_errors}

  -- `canonicalPlanSnapshots`
  unfoldable pub canonical_plan_snapshots : PlanContent → Result (RoleSpec × TaskPacket)
  canonical_plan_snapshots content = do
    normalized ←
        or_throw (normalized_role_and_task env content.role content.task)
          (codes "Execution plan embedded role and task snapshots are invalid.")
    require (same_json (role_json content.role) (role_json normalized.0))
        (codes "Execution plan embedded role snapshot is not canonical.")
    require (same_json (task_json content.task) (task_json normalized.1))
        (codes "Execution plan embedded task snapshot is not canonical.")
    ok normalized

  unfoldable pub assert_execution_plan_integrity : ExecutionPlan → Result ResolvedPlan
  assert_execution_plan_integrity plan = do
    assert_strict_contract (codes "Execution plan") (plan_errors plan)
    normalized ← canonical_plan_snapshots plan.content
    require (text_eq (digest_json env (role_json plan.content.role)) plan.content.role_digest)
        (codes "Execution plan role snapshot digest does not match the embedded role.")
    require (text_eq (digest_json env (task_json plan.content.task)) plan.content.task_digest)
        (codes "Execution plan task snapshot digest does not match the embedded task.")
    assert_semantic_plan_content plan.content normalized.0 normalized.1
    require
        (text_eq (digest_json env (contract_json plan.content.contract))
          plan.content.contract_digest)
        (codes "Execution plan contract digest does not match the embedded contract.")
    require
        (text_eq (digest_json env plan.content.executor.public_options)
          plan.content.executor.options_digest)
        (codes "Execution plan options digest does not match the public options.")
    require (text_eq (digest_json env (content_json plan.content)) plan.content_digest)
        (codes "Execution plan content digest does not match the embedded content.")
    ok (record { plan = plan; plan_digest = digest_json env (plan_json plan) })
