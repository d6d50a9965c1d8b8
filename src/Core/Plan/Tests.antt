-- ===== src/Core/Plan/Tests.antt =====
-- A plan and its receipt at concrete values, and the theorems on plans applied to them.
use rolekit.Common.{true, false, ◌≡◌, refl, none, some, [], ◌∷◌}
use rolekit.Common.Text.{codes, text_eq, Text, has}
use rolekit.Common.SortedUnique.{sorted_unique, IsDistinct}
use rolekit.Common.SortedOrder.{IsInOrder, sorted_unique_lem}
use rolekit.Core.Json.Data.{null, obj, end}
use rolekit.Core.Json.Canonical.{encode_canonical}
use rolekit.Core.Error.{ok}
use rolekit.Core.Response.Data.{completed, absent, ExecutorResponse}
use rolekit.Core.Response.Validate.{
  duplicate_values, validate_executor_response, semantic_valid, response_errors, output_errors,
  duplicate_errors, content_errors, usage_errors,
}
use rolekit.Core.Plan.Data.{RoleSpec, TaskPacket, allowed, host, ResolvedPlan, PlanInput}
use rolekit.Core.Plan.Encode.{plan_json, same_json}
use rolekit.Core.Plan.Normalize.{
  PlanEnv, merge_capabilities, create_execution_contract, final_response_rules,
  normalized_role_and_task, normalized_admission,
}
use rolekit.Core.Plan.Create.{
  execution_plan_executor, digest_json, plan_content, plan_instance, create_execution_plan,
}
use rolekit.Core.Plan.Integrity.{
  assert_semantic_plan_content, canonical_plan_snapshots, assert_execution_plan_integrity,
}
use rolekit.Core.Plan.Idempotent.{normalized_role_and_task_idempotent}
use rolekit.Core.Plan.RoundTrip.{create-integrity}
use rolekit.Core.Plan.Receipt.{
  ExecutionReceipt, RunResult, receipt_duration_ms, response_identity_error, result_executor,
  create_actual_executor_identity,
}
use rolekit.Core.Plan.Outcome.{normalized_outcome}
use rolekit.Core.Plan.Finalize.{
  FinalizeEnv, run_result, match_receipt, settle_receipt, may_finalize, identity_of,
  finalize_execution,
}
use rolekit.Core.Plan.Final.Binding.{IsBound, finalize-IsBound}
use rolekit.Core.Plan.Final.Status.{IsEarned, finalize-IsEarned}
use rolekit.Core.Plan.Final.Parts.{validation_of}
use rolekit.Core.Plan.Final.Total.{finalize_total}

-- No schema objects, and the digest is short: the length of the text is not.
abbrev plans : PlanEnv
plans = record {
  role_errors = λ _. [];
  task_errors = λ _. [];
  admission_errors = λ _. [];
  target_errors = λ _. [];
  content_errors = λ _. [];
  plan_errors = λ _. [];
  compile_error = λ _. none;
  sha256 = λ t. codes "sha";
}

abbrev env : FinalizeEnv
env = record {
  plans = plans;
  receipt_errors = λ _. [];
  parse_date = λ _. some 5;
  check_output = λ _ _. [];
}

abbrev role : RoleSpec
role = record {
  id = codes "r";
  description = codes "d";
  required_capabilities = codes "b" ∷ codes "a" ∷ codes "b" ∷ [];
  input_schema = obj end;
  output_schema = obj end;
  instructions = none;
}

abbrev task : TaskPacket
task = record {
  task_id = codes "t";
  parent_task_id = none;
  role_id = codes "r";
  objective = codes "o";
  input = null;
  context = [];
  constraints = [];
  acceptance_criteria = [];
  required_capabilities = some (codes "c" ∷ []);
  allowed_paths = none;
  expected_artifacts = record { name = codes "x"; kind = codes "k"; description = none } ∷ [];
  metadata = none;
}

abbrev input : PlanInput
input = record {
  role = role;
  task = task;
  target = record {
    kind = host;
    id = codes "h";
    transport = codes "p";
    profile_id = none;
    profile_digest = none;
    requested_provider = none;
    requested_model = none;
    required_secrets = [];
    admission = record {
      verdict = allowed;
      effective_capabilities = [];
      effective_public_options = obj end;
      path_enforcement = codes "none";
      context_isolation = null;
    };
  };
  workspace = record { root = codes "/"; revision = none };
  run_id = codes "1";
  created_at = codes "now";
}

abbrev normal_role : RoleSpec
normal_role = record role { required_capabilities = codes "a" ∷ codes "b" ∷ [] }

abbrev resolved : ResolvedPlan
resolved =
    let plan =
      plan_instance plans
        (plan_content plans normal_role task input.target input.target.admission input.workspace)
        (codes "1") (codes "now") in
    record { plan = plan; plan_digest = digest_json plans (plan_json plan) }

abbrev response : ExecutorResponse
response = record {
  status = completed;
  summary = codes "s";
  output = some null;
  error = none;
  artifacts =
      record {
        name = codes "x";
        kind = codes "k";
        content = absent;
        uri = some (codes "u");
        media_type = none;
        metadata = none;
      }
      ∷ [];
  evidence = [];
  usage = none;
  provider = none;
  model = none;
  version = none;
}

abbrev receipt : ExecutionReceipt
receipt = record {
  plan_digest = codes "sha";
  run_id = codes "1";
  task_id = codes "t";
  role_id = codes "r";
  started_at = codes "now";
  completed_at = codes "now";
  actual_executor = create_actual_executor_identity (codes "h") (codes "p") none none none none;
  response = some (record {
    status = some (codes "completed");
    has_output = true;
    has_error = false;
    schema_errors = [];
    response = response;
  });
}

machine : Unit {0}
unfolding create_execution_plan execution_plan_executor normalized_role_and_task
    normalized_admission merge_capabilities duplicate_values digest_json plan_content plan_instance
    encode_canonical plan_json text_eq sorted_unique match_receipt receipt_duration_ms
    create_actual_executor_identity response_identity_error finalize_execution run_result
    settle_receipt normalized_outcome validate_executor_response semantic_valid response_errors
    output_errors duplicate_errors content_errors usage_errors assert_execution_plan_integrity
    canonical_plan_snapshots assert_semantic_plan_content same_json result_executor
    create_execution_contract final_response_rules
machine = tt

normal : normalized_role_and_task plans role task ≡ ok (normal_role, task)
unfolding machine
normal = refl

normalized_role_and_task_idempotent_example :
    normalized_role_and_task plans normal_role task ≡ ok (normal_role, task)
normalized_role_and_task_idempotent_example =
    normalized_role_and_task_idempotent plans role normal_role task task normal

created : create_execution_plan plans input ≡ ok resolved
unfolding machine
created = refl

create-integrity_example : assert_execution_plan_integrity plans resolved.plan ≡ ok resolved
create-integrity_example = create-integrity plans input resolved created

matched : match_receipt resolved receipt ≡ ok tt
unfolding machine
matched = refl

abbrev result : RunResult
result = run_result resolved receipt 0 (record {
  status = completed;
  summary = codes "s";
  output = some null;
  error = none;
  response = some response;
})

finalized : finalize_execution env resolved receipt ≡ ok result
unfolding machine
finalized = refl

finalize-IsBound_example :
    IsBound (digest_json plans (plan_json resolved.plan)) resolved result
    × (receipt.plan_digest ≡ digest_json plans (plan_json resolved.plan))
finalize-IsBound_example = finalize-IsBound env resolved receipt result finalized

result_completed : result.status ≡ completed
unfolding run_result
result_completed = refl

finalize-IsEarned_example : IsEarned env resolved receipt result
finalize-IsEarned_example = finalize-IsEarned env resolved receipt result finalized result_completed

timed : receipt_duration_ms (some 5) (some 5) (some 5) ≡ ok 0
unfolding machine
timed = refl

undisputed :
    identity_of (validation_of env resolved receipt).response receipt.actual_executor ≡ none
unfolding machine
undisputed = refl

permitted :
    may_finalize resolved.plan.content.policy.admission
      (validation_of env resolved receipt).response
    ≡ true
unfolding machine
permitted = refl

finalize_total_example : (r : RunResult) × (finalize_execution env resolved receipt ≡ ok r)
finalize_total_example =
    finalize_total env input resolved receipt 0 created refl matched timed undisputed permitted

sorted_unique_lem_example :
    let xs = codes "b" ∷ codes "a" ∷ codes "b" ∷ [] in
    IsInOrder (sorted_unique xs)
    × IsDistinct (sorted_unique xs)
    × ((s : Text) → has (sorted_unique xs) s ≡ has xs s)
sorted_unique_lem_example = sorted_unique_lem (codes "b" ∷ codes "a" ∷ codes "b" ∷ [])
