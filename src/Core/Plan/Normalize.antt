-- ===== src/Core/Plan/Normalize.antt =====
-- Normalized snapshots of a role, a task and an admission, and the contract made from them
-- (src/core/execution-plan.ts, execution-contract.ts and capabilities.ts).
use rolekit.Common.{Option, none, some, List, [], ◌∷◌, ◌++◌, map, concat}
use rolekit.Common.Text.{Text, codes, text_eq, join}
use rolekit.Common.SortedUnique.{sorted_unique}
use rolekit.Core.Json.Data.{Json, obj}
use rolekit.Core.Response.Validate.{duplicate_values}
use rolekit.Core.Error.{
  Result, ok, ◌>>=◌, ◌>>◌, throw, require, assert_strict_contract, invalid_contract, invalid_schema,
}
use rolekit.Core.Plan.Data.{
  RoleSpec, ExpectedArtifact, TaskPacket, ExecutionContract, Admission, ExecutionTarget,
  PlanContent, ExecutionPlan,
}

-- What the code takes from third parties: the objections of the JSON Schema validator (Ajv) to a
-- document under the schema of its kind, those of its compiler to a schema, and SHA-256.
pub record PlanEnv : Type 0 where
  pub role_errors : RoleSpec → List Text
  pub task_errors : TaskPacket → List Text
  pub admission_errors : Admission → List Text
  pub target_errors : ExecutionTarget → List Text
  pub content_errors : PlanContent → List Text
  pub plan_errors : ExecutionPlan → List Text
  pub compile_error : Json → Option Text
  pub sha256 : Text → Text

abbrev pub or_empty : Option (List Text) → List Text
or_empty none = []
or_empty (some xs) = xs

-- `mergeCapabilities(...sets)`
unfoldable pub merge_capabilities : List (Option (List Text)) → List Text
unfolding sorted_unique
merge_capabilities sets = sorted_unique (concat (map or_empty sets))

unfoldable pub final_response_rules : List Text
final_response_rules =
    codes "Return exactly one JSON object as the final response."
    ∷ codes "Do not wrap the JSON object in Markdown fences."
    ∷ codes
        "Use status `completed` only when the task output and every expected artifact are present."
    ∷ codes "Use `failed`, `blocked`, or `cancelled` with a structured error otherwise."
    ∷ codes "Artifact names and kinds must exactly match the task contract."
    ∷ []

unfoldable pub create_execution_contract : RoleSpec → TaskPacket → ExecutionContract
create_execution_contract role task = record {
  role = record { id = role.id; description = role.description; instructions = role.instructions };
  required_capabilities =
      merge_capabilities (some role.required_capabilities ∷ task.required_capabilities ∷ []);
  task = record {
    task_id = task.task_id;
    parent_task_id = task.parent_task_id;
    objective = task.objective;
    input = task.input;
    context = task.context;
    constraints = task.constraints;
    acceptance_criteria = task.acceptance_criteria;
    allowed_paths = task.allowed_paths;
    expected_artifacts = task.expected_artifacts;
    metadata = task.metadata;
  };
  role_output_schema = role.output_schema;
  final_response_rules = final_response_rules;
}

abbrev pub quoted : Text → Text → Text → Text
quoted before name after = before ++ (codes "\"" ++ (name ++ (codes "\"" ++ after)))

abbrev pub sorted_if_there : Option (List Text) → Option (List Text)
sorted_if_there none = none
sorted_if_there (some xs) = some (sorted_unique xs)

abbrev pub merged_if_there : Option (List Text) → Option (List Text)
merged_if_there none = none
merged_if_there (some xs) = some (merge_capabilities (some xs ∷ []))

-- What is thrown for a list of repeated artifact names.
abbrev pub reject_duplicates : Text → List Text → Result (Unit {0})
reject_duplicates task_id [] = ok tt
reject_duplicates task_id (d ∷ ds) = throw invalid_contract (
    quoted (codes "Task ") task_id (
      codes " repeats expected artifact names: "
      ++ (join (codes ", ") (sorted_unique (d ∷ ds)) ++ codes ".")))

module _ (env : PlanEnv) where
  open env use {role_errors, task_errors, admission_errors, compile_error}

  -- `normalizeJsonSchema` on JSON data: the clone is the value itself.
  unfoldable pub normalize_json_schema : Text → Json → Result Json
  normalize_json_schema label (obj fs) = elim (compile_error (obj fs)) [
    | none ↦ ok (obj fs)
    | some reason ↦ throw invalid_schema (label ++ (codes ": Invalid JSON Schema: " ++ reason))
  ]
  normalize_json_schema label _ = throw invalid_schema (label ++ codes " must be a JSON object.")

  unfoldable pub normalized_role : RoleSpec → Result RoleSpec
  unfolding normalize_json_schema
  normalized_role role = do
    assert_strict_contract (codes "Role snapshot") (role_errors role)
    input_schema ←
        normalize_json_schema (quoted (codes "Role ") role.id (codes " inputSchema"))
          role.input_schema
    output_schema ←
        normalize_json_schema (quoted (codes "Role ") role.id (codes " outputSchema"))
          role.output_schema
    let snapshot = record role {
      required_capabilities = merge_capabilities (some role.required_capabilities ∷ []);
      input_schema = input_schema;
      output_schema = output_schema;
    }
    assert_strict_contract (quoted (codes "Role snapshot ") snapshot.id []) (role_errors snapshot)
    ok snapshot

  unfoldable pub normalized_task : TaskPacket → Result TaskPacket
  normalized_task task = do
    assert_strict_contract (codes "Task snapshot") (task_errors task)
    reject_duplicates task.task_id
        (duplicate_values (map (λ (a : ExpectedArtifact). a.name) task.expected_artifacts))
    let snapshot = record task {
      required_capabilities = merged_if_there task.required_capabilities;
      allowed_paths = sorted_if_there task.allowed_paths;
    }
    assert_strict_contract (quoted (codes "Task snapshot ") snapshot.task_id [])
        (task_errors snapshot)
    ok snapshot

  unfoldable pub normalized_role_and_task : RoleSpec → TaskPacket → Result (RoleSpec × TaskPacket)
  unfolding normalized_role normalized_task text_eq
  normalized_role_and_task role_input task_input = do
    role ← normalized_role role_input
    task ← normalized_task task_input
    require (text_eq task.role_id role.id) (
        quoted (codes "Task roleId ") task.role_id
          (codes " does not match role snapshot " ++ quoted [] role.id (codes ".")))
    ok (role, task)

  unfoldable pub normalized_admission : Text → Admission → Result Admission
  normalized_admission label admission = do
    assert_strict_contract label (admission_errors admission)
    ok (record admission {
      effective_capabilities = merge_capabilities (some admission.effective_capabilities ∷ []);
    })
