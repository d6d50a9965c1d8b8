-- ===== src/Core/Rolekit/Tests/Data.antt =====
-- An instance with a role and an adapter, and a run in it.
use rolekit.Common.{true, false, none, some, List, [], ◌∷◌}
use rolekit.Common.Text.{codes}
use rolekit.Core.Json.Data.{null, str, arr, obj, nil, cons, end, field}
use rolekit.Core.Error.{ok}
use rolekit.Core.Response.Data.{completed, ExecutorResponse}
use rolekit.Core.Plan.Data.{
  RoleSpec, TaskPacket, allowed, adapter, Admission, ExecutionTarget, ResolvedPlan,
}
use rolekit.Core.Plan.Encode.{plan_json}
use rolekit.Core.Plan.Normalize.{PlanEnv}
use rolekit.Core.Plan.Create.{digest_json, plan_content, plan_instance}
use rolekit.Core.Plan.Receipt.{RunResult}
use rolekit.Core.Plan.Finalize.{FinalizeEnv, run_result}
use rolekit.Core.Events.Emitter.{
  info, diagnostic, started, terminal, from_adapter, EmitterEnv, Emitter, run_event,
}
use rolekit.Core.Options.Pointers.{undeclared}
use rolekit.Core.Options.Prepared.{copied, Prepared}
use rolekit.Core.Rolekit.Adapter.{returned, Adapter, Views}
use rolekit.Core.Rolekit.Registry.{Rolekit, Change, add_role, add_adapter, enters, leaves}
use rolekit.Core.Rolekit.Prepare.{not_given, Captured}
use rolekit.Core.Rolekit.Ending.{Job}
use rolekit.Core.Rolekit.Flow.{make_receipt}
use rolekit.Core.Rolekit.Run.{Request, emitting_of}

-- No schema objects, and the digest is short.
abbrev pub plans : PlanEnv
plans = record {
  role_errors = λ _. [];
  task_errors = λ _. [];
  admission_errors = λ _. [];
  target_errors = λ _. [];
  content_errors = λ _. [];
  plan_errors = λ _. [];
  compile_error = λ _. none;
  sha256 = λ t. codes "sha";
}

abbrev pub env : FinalizeEnv
env = record {
  plans = plans;
  receipt_errors = λ _. [];
  parse_date = λ _. some 5;
  check_output = λ _ _. [];
}

abbrev pub role : RoleSpec
role = record {
  id = codes "r";
  description = codes "d";
  required_capabilities = [];
  input_schema = obj end;
  output_schema = obj end;
  instructions = none;
}

abbrev pub task : TaskPacket
task = record {
  task_id = codes "t";
  parent_task_id = none;
  role_id = codes "r";
  objective = codes "o";
  input = null;
  context = [];
  constraints = [];
  acceptance_criteria = [];
  required_capabilities = none;
  allowed_paths = none;
  expected_artifacts = [];
  metadata = none;
}

abbrev pub admission : Admission
admission = record {
  verdict = allowed;
  effective_capabilities = [];
  effective_public_options = obj end;
  path_enforcement = codes "none";
  context_isolation = null;
}

abbrev pub response : ExecutorResponse
response = record {
  status = completed;
  summary = codes "s";
  output = some null;
  error = none;
  artifacts = [];
  evidence = [];
  usage = none;
  provider = none;
  model = none;
  version = none;
}

abbrev pub views : Views
views = record {
  descriptor_errors = λ _. [];
  descriptor_of = λ _. record {
    id = codes "x";
    transport = codes "p";
    adapter_version = codes "1";
    capabilities = [];
    context_isolation = null;
  };
  probe_errors = λ _. [];
  probe_of = λ _. record { available = true; executor_version = none };
  admission_errors = λ _. [];
  admission_of = λ _. admission;
  response_of = λ _. record {
    status = some (codes "completed");
    has_output = true;
    has_error = false;
    schema_errors = [];
    response = response;
  };
  response_errors = λ _. [];
}

-- One event while it executes, with the secret in it.
abbrev pub executor : Adapter
executor = record {
  id = codes "x";
  pointers = undeclared;
  prepare_options = λ _ _. returned (record {
    value = copied (
        obj (
          field (codes "executionOptions") null (
            field (codes "publicOptions") (obj end)
              (field (codes "sensitiveValues") (arr (cons (str (codes "hush")) nil)) end))));
    unfrozen = [];
  });
  inspect = λ _. returned (copied null);
  probe = λ _. returned (copied null);
  admit = λ _ _ _ _. returned (copied null);
  execute = λ _ _ _ _. (
    diagnostic info (codes "hush") ∷ [],
    returned (record { value = copied null; shown = λ _. none }),
  );
}

-- An instance with the role and the adapter, in which another run is active.
abbrev pub setup : List Change
setup =
    add_role role
    ∷ add_adapter (record {
      id = some (codes "x");
      id_text = codes "x";
      missing_methods = [];
      bad_cancel = false;
      adapter = executor;
    })
    ∷ enters (codes "7")
    ∷ []

abbrev pub kit : Rolekit
kit = record {
  roles = (codes "r", role) ∷ [];
  adapters = (codes "x", executor) ∷ [];
  active_run_ids = codes "7" ∷ [];
}

-- Another run begins meanwhile, and the one that was active ends.
abbrev pub request : Request
request = record {
  task = task;
  options = record {
    unreadable = false;
    executor_id = some (codes "x");
    cwd = some (codes "/");
    adapter_options = null;
    profile = none;
    public_option_context = none;
    run_id = not_given;
    bad_signal = false;
    bad_on_event = false;
  };
  created_id = returned (some (codes "1"));
  moments = record {
    aborted_before_probe = false;
    aborted_after_probe = false;
    aborted_after_execute = false;
    started_at = ok (codes "now");
    completed_at = ok (codes "now");
  };
  emitting = record {
    run_id = [];
    timestamp = λ _. codes "now";
    clock_error = λ _. none;
    sensitive_values = [];
    adapter_event_errors = λ _. [];
    run_event_errors = λ _. [];
    on_event = some (λ _. none);
    has_logger = false;
  };
  meanwhile = enters (codes "8") ∷ leaves (codes "7") ∷ [];
}

abbrev pub captured : Captured
captured = record {
  executor_id = codes "x";
  cwd = codes "/";
  adapter_options = null;
  profile = none;
  public_option_context = none;
  run_id = codes "1";
}

abbrev pub prepared : Prepared
prepared = record {
  execution_options = null;
  public_options = obj end;
  sensitive_values = codes "hush" ∷ [];
  requested_provider = none;
  requested_model = none;
}

abbrev pub job : Job
job = record {
  adapter = executor;
  role = role;
  task = task;
  options = captured;
  prepared = prepared;
  descriptor = views.descriptor_of null;
  started_at = codes "now";
}

abbrev pub resolved : ResolvedPlan
resolved =
    let target : ExecutionTarget = record {
      kind = adapter (codes "1");
      id = codes "x";
      transport = codes "p";
      profile_id = none;
      profile_digest = none;
      requested_provider = none;
      requested_model = none;
      required_secrets = [];
      admission = admission;
    } in
    let plan =
      plan_instance plans
        (plan_content plans role task target admission
          (record { root = codes "/"; revision = none }))
        (codes "1") (codes "now") in
    record { plan = plan; plan_digest = digest_json plans (plan_json plan) }

abbrev pub result : RunResult
result =
    run_result resolved
      (make_receipt views env request.moments job resolved (some (views.probe_of null)) (λ _. none)
        (some (views.response_of null)) (codes "now"))
      0
      (record {
        status = completed;
        summary = codes "s";
        output = some null;
        error = none;
        response = some response;
      })

abbrev pub emitting : EmitterEnv
emitting = emitting_of views env request job

abbrev pub last_state : Emitter
last_state = record {
  sequence = 3;
  terminal_emitted = true;
  callback_failure_logged = false;
  delivered =
      run_event emitting started 1
      ∷ run_event emitting (from_adapter (diagnostic info (codes "[REDACTED]"))) 2
      ∷ run_event emitting (terminal completed) 3
      ∷ [];
  logged = [];
}
