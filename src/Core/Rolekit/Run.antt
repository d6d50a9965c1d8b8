-- ===== src/Core/Rolekit/Run.antt =====
-- `run` of src/core/rolekit.ts as a whole: its start, its events and its end.
use rolekit.Common.{Bool, false, Option, none, some, List, map}
use rolekit.Common.Text.{Text}
use rolekit.Core.Error.{RolekitError, Result, ok, err, ◌>>=◌}
use rolekit.Core.Response.Data.{failed}
use rolekit.Core.Plan.Data.{RoleSpec, TaskPacket}
use rolekit.Core.Plan.Receipt.{RunResult}
use rolekit.Core.Plan.Finalize.{FinalizeEnv}
use rolekit.Core.Events.Emitter.{
  EmitterEnv, Emitter, fresh, emit_started, emit_terminal, emit_adapter, emitter_step, emitter_run,
}
use rolekit.Core.Rolekit.Adapter.{Attempt, Adapter, Views}
use rolekit.Core.Rolekit.Registry.{
  Rolekit, registered_adapter, resolve_task, enter_run, leave_run, Change, changes,
}
use rolekit.Core.Rolekit.Prepare.{
  RunOptions, Captured, capture_run_options, Compilation, prepare_adapter,
}
use rolekit.Core.Rolekit.Ending.{Moments, Job}
use rolekit.Core.Rolekit.Flow.{run_flow}

-- The arguments of `run`, with what it meets on its way: the id that `createRunId` gives, the signal and the
-- clock, the callback and the clock of the events, and what else happens to the instance while it waits.
pub record Request : Type 0 where
  pub task : TaskPacket
  pub options : RunOptions
  pub created_id : Attempt (Option Text)
  pub moments : Moments
  pub emitting : EmitterEnv
  pub meanwhile : List Change

pub record Entered : Type 0 where
  pub options : Captured
  pub task : TaskPacket
  pub role : RoleSpec
  pub adapter : Adapter
  pub kit : Rolekit

-- The emitter, where one was made, and how the run ends.
pub record Inside : Type 0 where
  pub emitter : Option Emitter
  pub executed : Bool
  pub outcome : Result RunResult

pub record Ran : Type 0 where
  pub kit : Rolekit
  pub inside : Inside

abbrev pub thrown_early : RolekitError → Inside
thrown_early e = record { emitter = none; executed = false; outcome = err e }

module _ (views : Views) (env : FinalizeEnv) where
  open env use {plans, check_output}

  -- What comes before the `try`.
  unfoldable pub start_run : Request → Rolekit → Result Entered
  unfolding capture_run_options resolve_task registered_adapter enter_run
  start_run request kit = do
    options ← capture_run_options request.options request.created_id
    resolved ← resolve_task plans check_output request.task kit
    adapter ← registered_adapter options.executor_id kit
    next ← enter_run options.run_id kit
    ok (record {
      options = options;
      task = resolved.0;
      role = resolved.1;
      adapter = adapter;
      kit = next;
    })

  abbrev pub emitting_of : Request → Job → EmitterEnv
  emitting_of request job = record request.emitting {
    run_id = job.options.run_id;
    sensitive_values = job.prepared.sensitive_values;
  }

  abbrev pub job_of : Entered → Compilation → Text → Job
  job_of entered c started_at = record {
    adapter = entered.adapter;
    role = entered.role;
    task = entered.task;
    options = entered.options;
    prepared = c.prepared;
    descriptor = c.descriptor;
    started_at = started_at;
  }

  -- The `catch`: a terminal event that cannot be emitted throws in its turn.
  unfoldable pub fail_run : EmitterEnv → Bool → Emitter → RolekitError → Inside
  unfolding emitter_step
  fail_run emitting executed s e =
      let last = emitter_step emitting s (emit_terminal failed) in
      record {
        emitter = some last.0;
        executed = executed;
        outcome = elim last.1 [ none ↦ err e | some other ↦ err other ];
      }

  -- `complete`, whose own throw comes to the `catch` too.
  unfoldable pub complete_run : EmitterEnv → Bool → Emitter → Result RunResult → Inside
  unfolding emitter_step fail_run
  complete_run emitting executed s (err e) = fail_run emitting executed s e
  complete_run emitting executed s (ok result) =
      elim (emitter_step emitting s (emit_terminal result.status)).1 [
        | none ↦ record {
          emitter = some (emitter_step emitting s (emit_terminal result.status)).0;
          executed = executed;
          outcome = ok result;
        }
        | some e ↦
            fail_run emitting executed (emitter_step emitting s (emit_terminal result.status)).0 e
      ]

  -- The run once its emitter is there: the state and the throw of the first event are the arguments.
  unfoldable pub run_job : Request → Job → Emitter × Option RolekitError → Inside
  unfolding run_flow complete_run fail_run emitter_run
  run_job request job (s, some e) = fail_run (emitting_of request job) false s e
  run_job request job (s, none) =
      let flow = run_flow views env request.moments job in
      complete_run (emitting_of request job) flow.executed
        (emitter_run (emitting_of request job) s (map emit_adapter flow.events)) flow.outcome

  -- `#prepareAdapter` and the first time stamp.
  unfoldable pub prepare_run : Request → Entered → Result (Compilation × Text)
  unfolding prepare_adapter
  prepare_run request entered = do
    compilation ←
        prepare_adapter views entered.adapter entered.options.adapter_options
          entered.options.public_option_context
    started_at ← request.moments.started_at
    ok (compilation, started_at)

  unfoldable pub run_prepared : Request → Entered → Result (Compilation × Text) → Inside
  unfolding run_job emitter_step fresh
  run_prepared request entered (err e) = thrown_early e
  run_prepared request entered (ok (compilation, started_at)) =
      let job = job_of entered compilation started_at in
      run_job request job (emitter_step (emitting_of request job) fresh emit_started)

  unfoldable pub run_entered : Request → Rolekit → Result Entered → Ran
  unfolding run_prepared prepare_run leave_run changes
  run_entered request kit (err e) = record { kit = kit; inside = thrown_early e }
  run_entered request kit (ok entered) = record {
    kit = leave_run entered.options.run_id (changes plans entered.kit request.meanwhile);
    inside = run_prepared request entered (prepare_run request entered);
  }

  unfoldable pub run : Request → Rolekit → Ran
  unfolding run_entered start_run
  run request kit = run_entered request kit (start_run request kit)
