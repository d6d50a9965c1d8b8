-- ===== src/Core/Rolekit/Compile.antt =====
-- `compile` and `inspectExecutor` of src/core/rolekit.ts, and what a compilation tells of a later run.
use rolekit.Common.{
  Bool, true, false, ◌≡◌, refl, sym, ◌∙◌, inl, inr, Option, none, some, map, arith, Option-cases,
}
use rolekit.Common.Text.{Text}
use rolekit.Core.Json.Data.{Json}
use rolekit.Core.Error.{RolekitError, Result, Result-cases, ok, err, ◌>>=◌}
use rolekit.Core.Plan.Data.{RoleSpec, TaskPacket, Admission}
use rolekit.Core.Plan.Receipt.{RunResult}
use rolekit.Core.Plan.Finalize.{FinalizeEnv}
use rolekit.Core.Events.Emitter.{
  EmitterEnv, Emitter, fresh, emit_started, emit_terminal, emit_adapter, emitter_step, emitter_run,
}
use rolekit.Core.Rolekit.Adapter.{Adapter, Descriptor, Views}
use rolekit.Core.Rolekit.Registry.{Rolekit, registered_adapter, resolve_task}
use rolekit.Core.Rolekit.Prepare.{Compilation, prepare_adapter, admit}
use rolekit.Core.Rolekit.Ending.{Job}
use rolekit.Core.Rolekit.Flow.{run_flow}
use rolekit.Core.Rolekit.Gate.{IsGated, run_flow-IsGated}
use rolekit.Core.Rolekit.Run.{
  Request, Entered, start_run, emitting_of, job_of, fail_run, complete_run, run_job, prepare_run,
  run_prepared, run_entered, run,
}

-- `ExecutionCompilation`; its public options are those of the admission.
pub record Compiled : Type 0 where
  pub descriptor : Descriptor
  pub admission : Admission
  pub public_options : Json

module _ (views : Views) (env : FinalizeEnv) where
  open env use {plans, check_output}

  unfoldable pub inspect_executor : Text → Json → Option Json → Rolekit → Result Descriptor
  unfolding registered_adapter prepare_adapter
  inspect_executor executor_id adapter_options public_context kit = do
    adapter ← registered_adapter executor_id kit
    compilation ← prepare_adapter views adapter adapter_options public_context
    ok compilation.descriptor

  -- `#prepareAdapterForTask`
  unfoldable pub prepare_adapter_for_task :
      Adapter → RoleSpec → TaskPacket → Json → Option Json → Result (Compilation × Admission)
  unfolding prepare_adapter admit
  prepare_adapter_for_task adapter role task adapter_options public_context = do
    inspected ← prepare_adapter views adapter adapter_options public_context
    admission ← admit views adapter role task inspected.prepared none
    ok (inspected, admission)

  unfoldable pub compile : TaskPacket → Text → Json → Option Json → Rolekit → Result Compiled
  unfolding resolve_task registered_adapter prepare_adapter_for_task
  compile task executor_id adapter_options public_context kit = do
    resolved ← resolve_task plans check_output task kit
    adapter ← registered_adapter executor_id kit
    compilation ←
        prepare_adapter_for_task adapter resolved.1 resolved.0 adapter_options public_context
    ok (record {
      descriptor = compilation.0.descriptor;
      admission = compilation.1;
      public_options = compilation.1.effective_public_options;
    })

  fail_run-executed :
      (emitting : EmitterEnv) (executed : Bool) (s : Emitter) (e : RolekitError)
      → (fail_run views env emitting executed s e).executed ≡ executed
  unfolding fail_run
  fail_run-executed emitting executed s e = refl

  complete_run-executed :
      (emitting : EmitterEnv) (executed : Bool) (s : Emitter) (o : Result RunResult)
      → (complete_run views env emitting executed s o).executed ≡ executed
  unfolding complete_run
  complete_run-executed emitting executed s (err e) = fail_run-executed emitting executed s e
  complete_run-executed emitting executed s (ok result) =
      elim (Option-cases (emitter_step emitting s (emit_terminal result.status)).1) [
        | inl fine ↦ rw (complete_run, fine) refl
        | inr (e, bad) ↦
            rw (complete_run, bad)
              (fail_run-executed emitting executed
                (emitter_step emitting s (emit_terminal result.status)).0 e)
      ]

  run_job-IsGated :
      (request : Request) (job : Job) (first : Emitter × Option RolekitError)
      → (run_job views env request job first).executed ≡ true
      → IsGated views env request.moments job
  unfolding run_job
  run_job-IsGated request job (s, some e) h =
      let same = fail_run-executed (emitting_of views env request job) false s e in
      absurd (let no : false ≡ true = sym same ∙ h in ground arith)
  run_job-IsGated request job (s, none) h =
      let flow = run_flow views env request.moments job in
      let same =
        complete_run-executed (emitting_of views env request job) flow.executed
          (emitter_run (emitting_of views env request job) s (map emit_adapter flow.events))
          flow.outcome in
      run_flow-IsGated views env request.moments job (sym same ∙ h)

  -- The parts of a run that calls `execute`.
  pub record IsExecuted (request : Request) (kit : Rolekit) : Type 0 where
    pub entered : Entered
    pub started : start_run views env request kit ≡ ok entered
    pub compilation : Compilation
    pub started_at : Text
    pub prepared : prepare_run views env request entered ≡ ok (compilation, started_at)
    pub gate : IsGated views env request.moments (job_of views env entered compilation started_at)

  prepared-IsExecuted :
      (request : Request) (kit : Rolekit) (entered : Entered)
      → start_run views env request kit ≡ ok entered
      → (run_prepared views env request entered (prepare_run views env request entered)).executed
        ≡ true
      → IsExecuted request kit
  unfolding run_prepared
  prepared-IsExecuted request kit entered started h =
      elim (Result-cases (prepare_run views env request entered)) [
        | inr (e, bad) ↦ absurd (ground arith)
        | inl ((c, at), fine) ↦
            let job = job_of views env entered c at in
            record {
              entered = entered;
              started = started;
              compilation = c;
              started_at = at;
              prepared = fine;
              gate =
                  run_job-IsGated request job
                    (emitter_step (emitting_of views env request job) fresh emit_started)
                    (ground arith);
            }
      ]

  -- A run calls its adapter's `execute` only if it has started and made its preparations, after a static
  -- admission that allows, a probe that says available, and a runtime admission with that probe that
  -- allows, and only where the signal was aborted neither before the probe nor after it.
  pub run-IsExecuted :
      (request : Request) (kit : Rolekit)
      → (run views env request kit).inside.executed ≡ true
      → IsExecuted request kit
  unfolding run run_entered
  run-IsExecuted request kit h = elim (Result-cases (start_run views env request kit)) [
    | inr (e, bad) ↦ absurd (ground arith)
    | inl (entered, fine) ↦ prepared-IsExecuted request kit entered fine (ground arith)
  ]
