-- ===== src/Core/Plan/RoundTrip.antt =====
-- A plan that `createExecutionPlan` returns passes `assertExecutionPlanIntegrity`.
use rolekit.Common.{true, ◌≡◌, refl, sym, ap, ◌∙◌, inl, inr, [], arith}
use rolekit.Common.Text.{codes, text_eq_refl}
use rolekit.Common.SortedUnique.{sorted_unique_idempotent}
use rolekit.Core.Json.Data.{Json}
use rolekit.Core.Json.Canonical.{encode_canonical}
use rolekit.Core.Error.{Result-cases, ok}
use rolekit.Core.Plan.Data.{
  RoleSpec, TaskPacket, Admission, PlanContent, ExecutionPlan, ResolvedPlan, PlanInput,
}
use rolekit.Core.Plan.Encode.{
  role_json, task_json, contract_json, content_json, plan_json, same_json,
}
use rolekit.Core.Plan.Normalize.{PlanEnv, normalized_role_and_task, normalized_admission}
use rolekit.Core.Plan.Create.{
  execution_plan_executor, digest_json, plan_content, plan_instance, create_execution_plan,
}
use rolekit.Core.Plan.Integrity.{
  assert_semantic_plan_content, canonical_plan_snapshots, assert_execution_plan_integrity,
}
use rolekit.Core.Plan.Idempotent.{normalized_role_and_task_idempotent}

same_json_refl : (a : Json) → same_json a a ≡ true
unfolding same_json
same_json_refl a = text_eq_refl (encode_canonical a)

module _ (env : PlanEnv) where
  -- What a created plan was made from.
  pub record IsMade (input : PlanInput) (plan : ResolvedPlan) : Type 0 where
    pub role : RoleSpec
    pub task : TaskPacket
    pub admission : Admission
    pub normal : normalized_role_and_task env input.role input.task ≡ ok (role, task)
    pub admitted :
        normalized_admission env (codes "Execution target admission") input.target.admission
        ≡ ok admission
    pub instance_of :
        plan.plan
        ≡ plan_instance env
            (plan_content env role task input.target admission input.workspace)
            input.run_id
            input.created_at
    pub digested : plan.plan_digest ≡ digest_json env (plan_json plan.plan)
    pub accepted : env.plan_errors plan.plan ≡ []

  pub create_execution_plan-IsMade :
      (input : PlanInput) (plan : ResolvedPlan)
      → create_execution_plan env input ≡ ok plan
      → IsMade input plan
  unfolding create_execution_plan
  create_execution_plan-IsMade input plan h =
      elim (Result-cases (normalized_role_and_task env input.role input.task)) [
        | inr (e, bad) ↦ absurd (ground arith)
        | inl ((role, task), normal) ↦
            elim (Result-cases (
              normalized_admission env (codes "Execution target admission")
                input.target.admission)) [
                  | inr (e, bad) ↦ absurd (ground arith)
                  | inl (admission, admitted) ↦ record {
                    role = role;
                    task = task;
                    admission = admission;
                    normal = normal;
                    admitted = admitted;
                    instance_of = ground arith;
                    digested = ground arith;
                    accepted = ground arith;
                  }
                ]
      ]

  canonical_of_made :
      (content : PlanContent)
      → normalized_role_and_task env content.role content.task ≡ ok (content.role, content.task)
      → canonical_plan_snapshots env content ≡ ok (content.role, content.task)
  unfolding canonical_plan_snapshots
  canonical_of_made content h =
      rw h (rw (same_json_refl (role_json content.role), same_json_refl (task_json content.task)))

  semantic_of_made :
      (role : RoleSpec) (task : TaskPacket) (input : PlanInput) (admission : Admission)
      → assert_semantic_plan_content
          (plan_content env role task input.target admission input.workspace)
          role
          task
        ≡ ok tt
  unfolding assert_semantic_plan_content plan_content execution_plan_executor
  semantic_of_made role task input admission =
      rw (sorted_unique_idempotent input.target.required_secrets) (simp same_json_refl)

  integrity_of_parts :
      (plan : ExecutionPlan)
      → env.plan_errors plan ≡ []
      → canonical_plan_snapshots env plan.content ≡ ok (plan.content.role, plan.content.task)
      → assert_semantic_plan_content plan.content plan.content.role plan.content.task ≡ ok tt
      → digest_json env (role_json plan.content.role) ≡ plan.content.role_digest
      → digest_json env (task_json plan.content.task) ≡ plan.content.task_digest
      → digest_json env (contract_json plan.content.contract) ≡ plan.content.contract_digest
      → digest_json env plan.content.executor.public_options ≡ plan.content.executor.options_digest
      → digest_json env (content_json plan.content) ≡ plan.content_digest
      → assert_execution_plan_integrity env plan
        ≡ ok (record { plan = plan; plan_digest = digest_json env (plan_json plan) })
  unfolding assert_execution_plan_integrity
  integrity_of_parts plan a c s r t k o d = ground (
    arith,
    text_eq_refl plan.content.role_digest,
    text_eq_refl plan.content.task_digest,
    text_eq_refl plan.content.contract_digest,
    text_eq_refl plan.content.executor.options_digest,
    text_eq_refl plan.content_digest,
  )

  instance_integrity :
      (role : RoleSpec) (task : TaskPacket) (input : PlanInput) (admission : Admission)
      → normalized_role_and_task env role task ≡ ok (role, task)
      → let plan =
          plan_instance env
            (plan_content env role task input.target admission input.workspace)
            input.run_id
            input.created_at in
        env.plan_errors plan ≡ []
        → assert_execution_plan_integrity env plan
          ≡ ok (record { plan = plan; plan_digest = digest_json env (plan_json plan) })
  unfolding plan_content plan_instance execution_plan_executor
  instance_integrity role task input admission normal accepted =
      integrity_of_parts
        (plan_instance env (plan_content env role task input.target admission input.workspace)
          input.run_id input.created_at)
        accepted
        (canonical_of_made (plan_content env role task input.target admission input.workspace)
          normal)
        (semantic_of_made role task input admission) refl refl refl refl refl

  -- A plan that `createExecutionPlan` returns passes `assertExecutionPlanIntegrity`, which gives back
  -- the very plan with the very digest.
  pub create-integrity :
      (input : PlanInput) (plan : ResolvedPlan)
      → create_execution_plan env input ≡ ok plan
      → assert_execution_plan_integrity env plan.plan ≡ ok plan
  create-integrity input plan h =
      let m = create_execution_plan-IsMade input plan h in
      let normal =
        normalized_role_and_task_idempotent env input.role m.role input.task m.task m.normal in
      let whole =
        instance_integrity m.role m.task input m.admission normal
          (rw (← m.instance_of) m.accepted) in
      let here : assert_execution_plan_integrity env plan.plan
          ≡ ok (record { plan = plan.plan; plan_digest = digest_json env (plan_json plan.plan) }) =
        rw m.instance_of whole in
      here ∙ ap ok (λ i. record { plan = plan.plan; plan_digest = sym m.digested i })
