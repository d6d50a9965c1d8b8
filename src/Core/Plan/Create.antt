-- ===== src/Core/Plan/Create.antt =====
-- `createExecutionPlan` of src/core/execution-plan.ts.
use rolekit.Common.Text.{Text, codes}
use rolekit.Common.SortedUnique.{sorted_unique}
use rolekit.Core.Json.Data.{Json}
use rolekit.Core.Json.Canonical.{encode_canonical}
use rolekit.Core.Error.{Result, ok, ◌>>=◌, ◌>>◌, assert_strict_contract}
use rolekit.Core.Plan.Data.{
  RoleSpec, TaskPacket, ExecutionContract, Admission, ExecutionTarget, PlanExecutor, Workspace,
  PlanContent, ExecutionPlan, ResolvedPlan, PlanInput,
}
use rolekit.Core.Plan.Encode.{role_json, task_json, contract_json, content_json, plan_json}
use rolekit.Core.Plan.Normalize.{
  PlanEnv, or_empty, create_execution_contract, normalized_role_and_task, normalized_admission,
}

-- `executionPlanExecutor`
unfoldable pub execution_plan_executor : ExecutionTarget → Admission → Text → PlanExecutor
unfolding sorted_unique
execution_plan_executor target admission options_digest = record {
  kind = target.kind;
  id = target.id;
  transport = target.transport;
  profile_id = target.profile_id;
  profile_digest = target.profile_digest;
  requested_provider = target.requested_provider;
  requested_model = target.requested_model;
  public_options = admission.effective_public_options;
  options_digest = options_digest;
  required_secrets = sorted_unique target.required_secrets;
}

module _ (env : PlanEnv) where
  open env use {target_errors, content_errors, plan_errors, sha256}

  -- `digestJson`
  unfoldable pub digest_json : Json → Text
  unfolding encode_canonical
  digest_json value = sha256 (encode_canonical value)

  -- The content of a plan, from normalized documents.
  unfoldable pub plan_content :
      RoleSpec → TaskPacket → ExecutionTarget → Admission → Workspace → PlanContent
  plan_content role task target admission workspace =
      let contract : ExecutionContract = create_execution_contract role task in
      record {
        role = role;
        role_digest = digest_json (role_json role);
        task = task;
        task_digest = digest_json (task_json task);
        contract = contract;
        contract_digest = digest_json (contract_json contract);
        executor =
            execution_plan_executor target admission
              (digest_json admission.effective_public_options);
        workspace = workspace;
        policy = record {
          admission = admission.verdict;
          required_capabilities = contract.required_capabilities;
          allowed_paths = sorted_unique (or_empty task.allowed_paths);
          path_enforcement = admission.path_enforcement;
          context_isolation = admission.context_isolation;
        };
      }

  unfoldable pub plan_instance : PlanContent → Text → Text → ExecutionPlan
  plan_instance content run_id created_at = record {
    run_id = run_id;
    created_at = created_at;
    content = content;
    content_digest = digest_json (content_json content);
  }

  unfoldable pub create_execution_plan : PlanInput → Result ResolvedPlan
  create_execution_plan input = do
    snapshots ← normalized_role_and_task env input.role input.task
    assert_strict_contract (codes "Execution target") (target_errors input.target)
    admission ← normalized_admission env (codes "Execution target admission") input.target.admission
    let content = plan_content snapshots.0 snapshots.1 input.target admission input.workspace
    assert_strict_contract (codes "Execution plan content") (content_errors content)
    let plan = plan_instance content input.run_id input.created_at
    assert_strict_contract (codes "Execution plan") (plan_errors plan)
    ok (record { plan = plan; plan_digest = digest_json (plan_json plan) })
