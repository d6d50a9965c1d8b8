-- ===== src/Core/Rolekit/Tests.antt =====
-- A run at concrete values, and the theorems on runs applied to it.
mod Data
use rolekit.Common.{
  true, false, ◌≡◌, refl, ◌↔◌, ◌⊎◌, none, some, List, [], ◌∷◌, ◌++◌, if◌then◌else◌,
}
use rolekit.Common.Text.{Text, codes, text_eq, has}
use rolekit.Common.SortedUnique.{sorted_unique, text_leb}
use rolekit.Core.Json.Data.{null, str, arr, obj, nil, cons, end, field, member}
use rolekit.Core.Json.Canonical.{encode_canonical}
use rolekit.Core.Error.{RolekitError, ok, err}
use rolekit.Core.Redact.Replace.{redact_sensitive_text}
use rolekit.Core.Redact.JsonValue.{redact_sensitive_json_value, redact_json_value}
use rolekit.Core.Response.Data.{completed, failed, ExecutorResponse}
use rolekit.Core.Response.Validate.{
  duplicate_values, validate_executor_response, semantic_valid, response_errors, output_errors,
  duplicate_errors, content_errors, usage_errors,
}
use rolekit.Core.Plan.Data.{
  RoleSpec, TaskPacket, allowed, adapter, Admission, ExecutionTarget, ResolvedPlan,
}
use rolekit.Core.Plan.Encode.{plan_json, same_json}
use rolekit.Core.Plan.Normalize.{
  PlanEnv, merge_capabilities, create_execution_contract, final_response_rules,
  normalize_json_schema, normalized_role_and_task, normalized_admission,
}
use rolekit.Core.Plan.Create.{
  execution_plan_executor, digest_json, plan_content, plan_instance, create_execution_plan,
}
use rolekit.Core.Plan.Integrity.{
  assert_semantic_plan_content, canonical_plan_snapshots, assert_execution_plan_integrity,
}
use rolekit.Core.Plan.Receipt.{
  RunResult, receipt_duration_ms, response_identity_error, result_executor,
  create_actual_executor_identity,
}
use rolekit.Core.Plan.Outcome.{normalized_outcome, completed_outcome, missing_artifacts}
use rolekit.Core.Plan.Finalize.{
  FinalizeEnv, run_result, match_receipt, settle_receipt, finalize_execution,
}
use rolekit.Core.Events.Emitter.{
  info, diagnostic, started, terminal, from_adapter, RunEvent, EmitterEnv, Emitter, fresh,
  emit_terminal, run_event, emit_stamped, emit, forward, after_callback, redacted_event,
  mark_terminal, emitter_step, emitter_run,
}
use rolekit.Core.Options.Pointers.{undeclared, sensitive_pointer_errors, replace_unit}
use rolekit.Core.Options.Safety.{visit, marker_errors, secrets_of, public_option_errors}
use rolekit.Core.Options.Prepared.{
  copied, Prepared, prepared_sensitive_values, validate_prepared_executor_options, prepared_errors,
  prepared_of, shape_errors, public_errors,
}
use rolekit.Core.Rolekit.Adapter.{returned, Adapter, Views}
use rolekit.Core.Rolekit.Registry.{
  Rolekit, empty, get, is_id, register_role, role_snapshot, register_adapter, valid_id,
  registered_adapter, resolve_task, enter_run, leave_run, Change, add_role, add_adapter, enters,
  leaves, change, changes,
}
use rolekit.Core.Rolekit.Distinct.{IsValid, changes-IsValid}
use rolekit.Core.Rolekit.Active.{is_running}
use rolekit.Core.Rolekit.Refused.{IsGoingOn, enter_run_refused_iff}
use rolekit.Core.Rolekit.Prepare.{
  not_given, Captured, capture_run_options, executor_of, run_id_of, prepare_adapter,
  checked_options_of, described, checked_copy, admit, admitted, take_probe, probe_candidate,
  redacted_reason,
}
use rolekit.Core.Rolekit.Ending.{Job, observed_string}
use rolekit.Core.Rolekit.Flow.{
  create_adapter_plan, make_receipt, finalize_terminal, execution_answered, execution_outcome,
  execute_or_block, flow_planned, flow_admitted, flow_probed, flow_static, run_flow,
}
use rolekit.Core.Rolekit.Achieved.{IsAchieved}
use rolekit.Core.Rolekit.Own.{IsOwn}
use rolekit.Core.Rolekit.Run.{
  Request, Entered, start_run, emitting_of, fail_run, complete_run, run_job, prepare_run,
  run_prepared, run_entered, run,
}
use rolekit.Core.Rolekit.Release.{run_released}
use rolekit.Core.Rolekit.Finish.{IsFinished}
use rolekit.Core.Rolekit.Compile.{Compiled, compile, IsExecuted, run-IsExecuted}
use rolekit.Core.Rolekit.Forecast.{compile_allows}
use rolekit.Core.Rolekit.Returns.{job_in, run_completed, run_told, run_closed}
use rolekit.Core.Rolekit.Tests.Data.{
  plans, env, role, task, admission, response, views, executor, setup, kit, request, captured,
  prepared, job, resolved, result, emitting, last_state,
}

set_up : changes plans empty setup ≡ kit
unfolding changes change empty register_role register_adapter role_snapshot normalize_json_schema
    valid_id is_id enter_run text_eq get has
set_up = refl

changes-IsValid_example : IsValid (changes plans empty setup)
changes-IsValid_example = changes-IsValid plans setup

enter_run_refused_iff_example :
    ((e : RolekitError) × (enter_run
          (codes "7")
          (changes plans empty (setup ++ (leaves (codes "7") ∷ [])))
        ≡ err e))
    ↔ IsGoingOn (codes "7") (setup ++ (leaves (codes "7") ∷ []))
enter_run_refused_iff_example =
    enter_run_refused_iff plans (setup ++ (leaves (codes "7") ∷ [])) (codes "7")

machine : Unit {0}
unfolding capture_run_options executor_of run_id_of is_id get text_eq has resolve_task
    registered_adapter enter_run leave_run changes change start_run run run_entered run_prepared
    prepare_run run_job complete_run fail_run prepare_adapter checked_options_of described
    checked_copy admit admitted take_probe probe_candidate redacted_reason run_flow flow_static
    flow_probed flow_admitted flow_planned execute_or_block execution_outcome execution_answered
    create_adapter_plan make_receipt observed_string finalize_terminal
    validate_prepared_executor_options prepared_sensitive_values prepared_errors prepared_of
    shape_errors public_errors public_option_errors secrets_of sensitive_pointer_errors visit
    marker_errors replace_unit text_leb member redact_sensitive_json_value redact_json_value
    redact_sensitive_text emitter_run emitter_step emit emit_stamped forward after_callback
    redacted_event mark_terminal fresh create_execution_plan execution_plan_executor
    normalized_role_and_task normalized_admission merge_capabilities duplicate_values digest_json
    plan_content plan_instance encode_canonical plan_json sorted_unique match_receipt
    receipt_duration_ms create_actual_executor_identity response_identity_error finalize_execution
    run_result settle_receipt normalized_outcome completed_outcome missing_artifacts
    validate_executor_response semantic_valid response_errors output_errors duplicate_errors
    content_errors usage_errors assert_execution_plan_integrity canonical_plan_snapshots
    assert_semantic_plan_content same_json result_executor create_execution_contract
    final_response_rules
machine = tt

run_executes : (run views env request kit).inside.executed ≡ true
unfolding machine
run_executes = refl

run-IsExecuted_example : IsExecuted views env request kit
run-IsExecuted_example = run-IsExecuted views env request kit run_executes

compile_allows_example :
    (executor_id : Text) × (c : Compiled) × (request.options.executor_id ≡ some executor_id)
    × (compile views env request.task executor_id request.options.adapter_options
          request.options.public_option_context kit
        ≡ ok c)
    × (c.admission.verdict ≡ allowed)
compile_allows_example = compile_allows views env request kit run_executes

run_returns : (run views env request kit).inside.outcome ≡ ok result
unfolding machine
run_returns = refl

result_completed : result.status ≡ completed
unfolding run_result
result_completed = refl

run_completed_example :
    (f : IsFinished views env request kit result) × IsAchieved views env request.moments
      (job_in views env request kit result f)
      result
    × IsOwn (job_in views env request kit result f) result
run_completed_example = run_completed views env request kit result run_returns result_completed

run_told_example :
    (s : Emitter) × (earlier : List RunEvent) × (last : RunEvent) × ((run views env request
        kit).inside.emitter
      ≡ some s)
    × (s.terminal_emitted ≡ true)
    × (s.delivered ≡ earlier ++ (last ∷ []))
    × (last.event ≡ terminal result.status)
    × (last.run_id ≡ result.run_id)
run_told_example = run_told views env request kit result (λ _. none) run_returns refl

run_emits : (run views env request kit).inside.emitter ≡ some last_state
unfolding machine
run_emits = refl

run_closed_example :
    (last_state.terminal_emitted ≡ true)
    ⊎ ((j : Job) × (before : Emitter) × (e : RolekitError) × ((run views env request
            kit).inside.outcome
          ≡ err e)
        × (emitter_step (emitting_of views env request j) before (emit_terminal failed)
            ≡ (last_state, some e)))
run_closed_example = run_closed views env request kit last_state run_emits

-- Only the run that began meanwhile is active at the end.
run_leaves : (run views env request kit).kit.active_run_ids ≡ codes "8" ∷ []
unfolding machine
run_leaves = refl

run_released_example :
    ((e : RolekitError) × (start_run views env request kit ≡ err e)
      × ((run views env request kit).kit ≡ kit)
      × ((run views env request kit).inside.outcome ≡ err e))
    ⊎ ((entered : Entered) × (start_run views env request kit ≡ ok entered)
        × (has (run views env request kit).kit.active_run_ids (codes "8") ≡ (
            if text_eq entered.options.run_id (codes "8")
            then false
            else is_running (codes "8") (has kit.active_run_ids (codes "8")) request.meanwhile)))
run_released_example = run_released views env request kit (codes "8")
