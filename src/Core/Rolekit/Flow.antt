-- ===== src/Core/Rolekit/Flow.antt =====
-- What `run` of src/core/rolekit.ts does between its first event and its last one: admission, probe, admission
-- with the probe, execution and finalization, with `#createAdapterPlan`, `#receipt` and `#finalizeTerminal`.
use rolekit.Common.{Bool, true, false, not, ◌&&◌, Option, none, some, [], if◌then◌else◌}
use rolekit.Common.Text.{Text, codes}
use rolekit.Core.Error.{Result, ok, err, throw, invalid_contract, ◌>>=◌}
use rolekit.Core.Redact.JsonValue.{redact_sensitive_json_value}
use rolekit.Core.Response.Data.{status_text, ExecutorResponse}
use rolekit.Core.Response.Validate.{Snapshot}
use rolekit.Core.Plan.Data.{Verdict, allowed, denied, Admission, adapter, ResolvedPlan}
use rolekit.Core.Plan.Normalize.{quoted}
use rolekit.Core.Plan.Create.{create_execution_plan}
use rolekit.Core.Plan.Receipt.{ExecutionReceipt, RunResult, create_actual_executor_identity}
use rolekit.Core.Plan.Finalize.{FinalizeEnv, finalize_execution}
use rolekit.Core.Options.Prepared.{copied, not_portable}
use rolekit.Core.Rolekit.Adapter.{Attempt, threw, returned, Probe, Answer, Views}
use rolekit.Core.Rolekit.Prepare.{admit, take_probe}
use rolekit.Core.Rolekit.Ending.{
  Moments, Job, Flow, stop, is_allowed, observed_string, nothing_shown, early_status, Ending,
  aborted_early, aborted_probing, aborted_executing, blocks, failure_ending,
}

module _ (views : Views) (env : FinalizeEnv) (moments : Moments) (job : Job) where
  open job use {role, task, options, prepared, descriptor}

  -- `#createAdapterPlan`
  unfoldable pub create_adapter_plan : Admission → Result ResolvedPlan
  unfolding create_execution_plan
  create_adapter_plan admission = create_execution_plan env.plans (record {
    role = role;
    task = task;
    target = record {
      kind = adapter descriptor.adapter_version;
      id = descriptor.id;
      transport = descriptor.transport;
      profile_id = elim options.profile [ none ↦ none | some p ↦ some p.id ];
      profile_digest = elim options.profile [ none ↦ none | some p ↦ some p.digest ];
      requested_provider = prepared.requested_provider;
      requested_model = prepared.requested_model;
      required_secrets = elim options.profile [ none ↦ [] | some p ↦ p.required_secrets ];
      admission = admission;
    };
    workspace = record { root = options.cwd; revision = none };
    run_id = options.run_id;
    created_at = job.started_at;
  })

  -- `#receipt`; the strings that the response shows are the second argument.
  unfoldable pub make_receipt :
      ResolvedPlan → Option Probe → (Text → Option Text) → Option Snapshot → Text → ExecutionReceipt
  unfolding create_actual_executor_identity
  make_receipt plan probe shown response completed_at = record {
    plan_digest = plan.plan_digest;
    run_id = plan.plan.run_id;
    task_id = plan.plan.content.task.task_id;
    role_id = plan.plan.content.role.id;
    started_at = job.started_at;
    completed_at = completed_at;
    actual_executor =
        create_actual_executor_identity descriptor.id descriptor.transport
          (elim probe [ none ↦ none | some p ↦ p.executor_version ]) (shown (codes "version"))
          (shown (codes "provider")) (shown (codes "model"));
    response = response;
  }

  -- The response that a run makes up.
  unfoldable pub terminal_response : Ending → ExecutorResponse
  unfolding early_status
  terminal_response ending = record {
    status = early_status ending.how;
    summary = ending.summary;
    output = none;
    error = some ending.error;
    artifacts = [];
    evidence = [];
    usage = none;
    provider = none;
    model = none;
    version = none;
  }

  unfoldable pub terminal_snapshot : Ending → Snapshot
  unfolding terminal_response status_text early_status
  terminal_snapshot ending = record {
    status = some (status_text (early_status ending.how));
    has_output = false;
    has_error = true;
    schema_errors = views.response_errors (terminal_response ending);
    response = terminal_response ending;
  }

  -- `#finalizeTerminal`
  unfoldable pub finalize_terminal : ResolvedPlan → Option Probe → Ending → Result RunResult
  unfolding make_receipt terminal_snapshot finalize_execution
  finalize_terminal plan probe ending = do
    completed_at ← moments.completed_at
    finalize_execution env plan
        (make_receipt plan probe nothing_shown (some (terminal_snapshot ending)) completed_at)

  -- A denied static admission, or a signal that was aborted before the probe.
  unfoldable pub stopped_before_probe : Admission → Ending → Result RunResult
  unfolding create_adapter_plan finalize_terminal
  stopped_before_probe static ending = do
    plan ← create_adapter_plan static
    finalize_terminal plan none ending

  abbrev pub answer_shown : Answer → Text → Option Text
  answer_shown answer key = elim answer.value [
    | copied j ↦ observed_string (redact_sensitive_json_value j prepared.sensitive_values) key
    | not_portable m ↦ answer.shown key
  ]

  abbrev pub answer_snapshot : Answer → Option Snapshot
  answer_snapshot answer = elim answer.value [
    | copied j ↦ some (views.response_of (redact_sensitive_json_value j prepared.sensitive_values))
    | not_portable m ↦ none
  ]

  -- `execute` resolved.
  unfoldable pub execution_answered : ResolvedPlan → Probe → Bool → Answer → Result RunResult
  unfolding finalize_terminal make_receipt observed_string redact_sensitive_json_value
      finalize_execution
  execution_answered plan probe true answer = finalize_terminal plan (some probe) aborted_executing
  execution_answered plan probe false answer = do
    completed_at ← moments.completed_at
    finalize_execution env plan
        (make_receipt plan (some probe) (answer_shown answer) (answer_snapshot answer) completed_at)

  unfoldable pub execution_outcome : ResolvedPlan → Probe → Attempt Answer → Result RunResult
  unfolding finalize_terminal failure_ending execution_answered
  execution_outcome plan probe (threw reason) =
      finalize_terminal plan (some probe) (
        failure_ending descriptor.id prepared.sensitive_values moments.aborted_after_execute reason)
  execution_outcome plan probe (returned answer) =
      execution_answered plan probe moments.aborted_after_execute answer

  -- With the plan made and no abort: the runtime admission decides.
  unfoldable pub execute_or_block : ResolvedPlan → Probe → Admission → Verdict → Flow
  unfolding finalize_terminal execution_outcome
  execute_or_block plan probe runtime (denied error) = stop (
      finalize_terminal plan (some probe) (blocks descriptor.id (codes "runtime admission.") error))
  execute_or_block plan probe runtime allowed = record {
    executed = true;
    events = (job.adapter.execute role task prepared runtime).0;
    outcome = execution_outcome plan probe (job.adapter.execute role task prepared runtime).1;
  }

  unfoldable pub flow_planned : Probe → Admission → Result ResolvedPlan → Flow
  unfolding execute_or_block finalize_terminal
  flow_planned probe runtime (err e) = stop (err e)
  flow_planned probe runtime (ok plan) =
      if moments.aborted_after_probe
      then stop (finalize_terminal plan (some probe) aborted_probing)
      else execute_or_block plan probe runtime runtime.verdict

  unfoldable pub flow_admitted : Probe → Result Admission → Flow
  unfolding flow_planned create_adapter_plan
  flow_admitted probe (err e) = stop (err e)
  flow_admitted probe (ok runtime) =
      if not probe.available && is_allowed runtime.verdict
      then stop (
          throw invalid_contract (
            quoted (codes "Executor adapter ") job.adapter.id
              (codes " admitted execution after an unavailable probe.")))
      else flow_planned probe runtime (create_adapter_plan runtime)

  unfoldable pub flow_probed : Result Probe → Flow
  unfolding flow_admitted admit
  flow_probed (err e) = stop (err e)
  flow_probed (ok probe) =
      flow_admitted probe (admit views job.adapter role task prepared (some probe))

  unfoldable pub flow_static : Admission → Verdict → Flow
  unfolding flow_probed take_probe stopped_before_probe
  flow_static static (denied error) =
      stop (stopped_before_probe static (blocks descriptor.id (codes "static admission.") error))
  flow_static static allowed =
      if moments.aborted_before_probe
      then stop (stopped_before_probe static aborted_early)
      else flow_probed (take_probe views job.adapter prepared)

  -- `run` from the static admission on.
  unfoldable pub run_flow : Flow
  unfolding flow_static admit
  run_flow = elim (admit views job.adapter role task prepared none) [
    | err e ↦ stop (err e)
    | ok static ↦ flow_static static static.verdict
  ]
