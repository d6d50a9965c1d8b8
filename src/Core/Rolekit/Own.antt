-- ===== src/Core/Rolekit/Own.antt =====
-- The result of a run is the run's own.
use rolekit.Common.{◌≡◌, refl, ◌∙◌, inl, inr, arith}
use rolekit.Core.Error.{Result-cases, ok}
use rolekit.Core.Plan.Data.{RoleSpec, TaskPacket, Admission, ResolvedPlan}
use rolekit.Core.Plan.Normalize.{
  PlanEnv, normalized_role, normalized_task, normalized_role_and_task,
}
use rolekit.Core.Plan.Create.{execution_plan_executor, plan_content, plan_instance}
use rolekit.Core.Plan.RoundTrip.{create_execution_plan-IsMade}
use rolekit.Core.Plan.Receipt.{RunResult}
use rolekit.Core.Plan.Finalize.{FinalizeEnv}
use rolekit.Core.Plan.Final.Binding.{finalize-IsBound}
use rolekit.Core.Rolekit.Adapter.{Views}
use rolekit.Core.Rolekit.Ending.{Moments, Job}
use rolekit.Core.Rolekit.Flow.{create_adapter_plan, run_flow}
use rolekit.Core.Rolekit.Settle.{run_flow-Settles}

module _ (env : PlanEnv) where
  normalized_role-id :
      (role snapshot : RoleSpec) → normalized_role env role ≡ ok snapshot → snapshot.id ≡ role.id
  unfolding normalized_role
  normalized_role-id role snapshot h = ground arith

  normalized_task-id :
      (task snapshot : TaskPacket)
      → normalized_task env task ≡ ok snapshot
      → snapshot.task_id ≡ task.task_id
  unfolding normalized_task
  normalized_task-id task snapshot h = ground arith

  same_ids :
      (role : RoleSpec) (task : TaskPacket) (r : RoleSpec) (t : TaskPacket)
      → normalized_role_and_task env role task ≡ ok (r, t)
      → (r.id ≡ role.id) × (t.task_id ≡ task.task_id)
  unfolding normalized_role_and_task
  same_ids role task r t h = elim (Result-cases (normalized_role env role)) [
    | inr (e, bad) ↦ absurd (ground arith)
    | inl (r1, fine) ↦ elim (Result-cases (normalized_task env task)) [
      | inr (e, bad) ↦ absurd (ground arith)
      | inl (t1, there) ↦
          let a = normalized_role-id role r1 fine in
          let b = normalized_task-id task t1 there in (ground arith, ground arith)
    ]
  ]

-- The identities of a run that its result repeats.
pub record IsOwn (job : Job) (result : RunResult) : Type 0 where
  pub run : result.run_id ≡ job.options.run_id
  pub task : result.task_id ≡ job.task.task_id
  pub role : result.role_id ≡ job.role.id
  pub executor : result.executor.id ≡ job.descriptor.id
  pub transport : result.executor.transport ≡ job.descriptor.transport

module _ (views : Views) (env : FinalizeEnv) (moments : Moments) (job : Job) where
  -- The identities of a plan that the run has made.
  plan_ids :
      (admission : Admission) (plan : ResolvedPlan)
      → create_adapter_plan views env moments job admission ≡ ok plan
      → (plan.plan.run_id ≡ job.options.run_id)
        × (plan.plan.content.task.task_id ≡ job.task.task_id)
        × (plan.plan.content.role.id ≡ job.role.id)
        × (plan.plan.content.executor.id ≡ job.descriptor.id)
        × (plan.plan.content.executor.transport ≡ job.descriptor.transport)
  unfolding create_adapter_plan plan_instance plan_content execution_plan_executor
  plan_ids admission plan h =
      let m = create_execution_plan-IsMade env.plans _ plan h in
      let (r, t) = same_ids env.plans job.role job.task m.role m.task m.normal in
      rw m.instance_of (refl, t, r, refl, refl)

  -- A result that the flow of a run returns, whatever its status, names the run's id, the task, the role,
  -- and the id and transport that the adapter's descriptor gave.
  pub run_flow-IsOwn :
      (result : RunResult) → (run_flow views env moments job).outcome ≡ ok result → IsOwn job result
  run_flow-IsOwn result h =
      let s = run_flow-Settles views env moments job result h in
      let (b, _) = finalize-IsBound env s.plan s.receipt result s.finalized in
      let (run, task, role, executor, transport) = plan_ids s.admission s.plan s.planned in
      record {
        run = b.run ∙ run;
        task = b.task ∙ task;
        role = b.role ∙ role;
        executor = b.executor ∙ executor;
        transport = b.transport ∙ transport;
      }
