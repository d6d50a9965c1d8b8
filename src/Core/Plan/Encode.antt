-- ===== src/Core/Plan/Encode.antt =====
-- The plan documents as JSON data: their members by the names of src/core/types.ts, an optional one
-- left out where it is undefined. `digestJson` and `canonicalJson` read them in this form.
use rolekit.Common.{Bool, true, false, Option, none, some, List, [], ◌∷◌}
use rolekit.Common.Text.{Text, codes, text_eq}
use rolekit.Core.Json.Data.{Json, bool, str, arr, obj, Items, nil, cons, Fields, end, field, texts}
use rolekit.Core.Json.Canonical.{encode_canonical}
use rolekit.Core.Response.Data.{ExecutionError}
use rolekit.Core.Plan.Data.{
  RoleSpec, ExpectedArtifact, TaskPacket, ExecutionContract, Verdict, allowed, denied, TargetKind,
  adapter, host, PlanExecutor, Policy, Workspace, PlanContent, ExecutionPlan,
}

-- `...(value === undefined ? {} : { key: value })`
abbrev optional : Text → Option Json → Fields → Fields
optional key none fs = fs
optional key (some v) fs = field key v fs

abbrev opt_text : Option Text → Option Json
opt_text none = none
opt_text (some t) = some (str t)

abbrev opt_texts : Option (List Text) → Option Json
opt_texts none = none
opt_texts (some ts) = some (arr (texts ts))

abbrev items : List Json → Items
items [] = nil
items (j ∷ js) = cons j (items js)

unfoldable pub role_json : RoleSpec → Json
unfolding texts
role_json r = obj (
    field (codes "schema") (str (codes "rolekit/role-spec@1")) (
      field (codes "id") (str r.id) (
        field (codes "description") (str r.description) (
          field (codes "requiredCapabilities") (arr (texts r.required_capabilities)) (
            field (codes "inputSchema") r.input_schema (
              field (codes "outputSchema") r.output_schema
                (optional (codes "instructions") (opt_text r.instructions) end)))))))

artifact_json : ExpectedArtifact → Json
artifact_json a = obj (
    field (codes "name") (str a.name) (
      field (codes "kind") (str a.kind)
        (optional (codes "description") (opt_text a.description) end)))

artifacts_json : List ExpectedArtifact → Items
unfolding artifact_json
artifacts_json [] = nil
artifacts_json (a ∷ rest) = cons (artifact_json a) (artifacts_json rest)

unfoldable pub task_json : TaskPacket → Json
unfolding texts artifacts_json
task_json t = obj (
    field (codes "schema") (str (codes "rolekit/task-packet@1")) (
      field (codes "taskId") (str t.task_id) (
        optional (codes "parentTaskId") (opt_text t.parent_task_id) (
          field (codes "roleId") (str t.role_id) (
            field (codes "objective") (str t.objective) (
              field (codes "input") t.input (
                field (codes "context") (arr (items t.context)) (
                  field (codes "constraints") (arr (texts t.constraints)) (
                    field (codes "acceptanceCriteria") (arr (texts t.acceptance_criteria)) (
                      optional (codes "requiredCapabilities") (opt_texts t.required_capabilities) (
                        optional (codes "allowedPaths") (opt_texts t.allowed_paths) (
                          field (codes "expectedArtifacts")
                            (arr (artifacts_json t.expected_artifacts))
                            (optional (codes "metadata") t.metadata end)))))))))))))

unfoldable pub contract_json : ExecutionContract → Json
unfolding texts artifacts_json
contract_json c =
    let role = obj (
      field (codes "id") (str c.role.id) (
        field (codes "description") (str c.role.description)
          (optional (codes "instructions") (opt_text c.role.instructions) end))) in
    let task = obj (
      field (codes "taskId") (str c.task.task_id) (
        optional (codes "parentTaskId") (opt_text c.task.parent_task_id) (
          field (codes "objective") (str c.task.objective) (
            field (codes "input") c.task.input (
              field (codes "context") (arr (items c.task.context)) (
                field (codes "constraints") (arr (texts c.task.constraints)) (
                  field (codes "acceptanceCriteria") (arr (texts c.task.acceptance_criteria)) (
                    optional (codes "allowedPaths") (opt_texts c.task.allowed_paths) (
                      field (codes "expectedArtifacts")
                        (arr (artifacts_json c.task.expected_artifacts))
                        (optional (codes "metadata") c.task.metadata end)))))))))) in
    let output_contract = obj (
      field (codes "roleOutputSchema") c.role_output_schema
        (field (codes "finalResponseRules") (arr (texts c.final_response_rules)) end)) in
    obj (
      field (codes "schema") (str (codes "rolekit/execution-contract@1")) (
        field (codes "role") role (
          field (codes "requiredCapabilities") (arr (texts c.required_capabilities))
            (field (codes "task") task (field (codes "outputContract") output_contract end)))))

error_json : ExecutionError → Json
error_json e = obj (
    field (codes "code") (str e.code) (
      field (codes "message") (str e.message)
        (field (codes "retryable") (bool e.retryable) (optional (codes "details") e.details end))))

verdict_json : Verdict → Json
unfolding error_json
verdict_json allowed = obj (field (codes "allowed") (bool true) end)
verdict_json (denied e) =
    obj (field (codes "allowed") (bool false) (field (codes "error") (error_json e) end))

kind_fields : TargetKind → Fields → Fields
kind_fields (adapter version) fs = field (codes "target") (str (codes "adapter")) (
    field (codes "capabilitySource") (str (codes "adapter-verified")) (
      field (codes "adapterProtocol") (str (codes "rolekit/executor-adapter@1"))
        (field (codes "adapterVersion") (str version) fs)))
kind_fields host fs =
    field (codes "target") (str (codes "host"))
      (field (codes "capabilitySource") (str (codes "host-attested")) fs)

executor_json : PlanExecutor → Json
unfolding kind_fields texts
executor_json e = obj (
    kind_fields e.kind (
      field (codes "id") (str e.id) (
        field (codes "transport") (str e.transport) (
          optional (codes "profileId") (opt_text e.profile_id) (
            optional (codes "profileDigest") (opt_text e.profile_digest) (
              optional (codes "requestedProvider") (opt_text e.requested_provider) (
                optional (codes "requestedModel") (opt_text e.requested_model) (
                  field (codes "publicOptions") e.public_options (
                    field (codes "optionsDigest") (str e.options_digest) (
                      field (codes "requiredSecrets") (arr (texts e.required_secrets)) end))))))))))

policy_json : Policy → Json
unfolding verdict_json texts
policy_json p = obj (
    field (codes "admission") (verdict_json p.admission) (
      field (codes "requiredCapabilities") (arr (texts p.required_capabilities)) (
        field (codes "allowedPaths") (arr (texts p.allowed_paths)) (
          field (codes "pathEnforcement") (str p.path_enforcement)
            (field (codes "contextIsolation") p.context_isolation end)))))

workspace_json : Workspace → Json
workspace_json w =
    obj (field (codes "root") (str w.root) (optional (codes "revision") (opt_text w.revision) end))

snapshot_json : Json → Text → Json
snapshot_json document digest =
    obj (field (codes "snapshot") document (field (codes "digest") (str digest) end))

unfoldable pub content_json : PlanContent → Json
unfolding role_json task_json contract_json executor_json policy_json workspace_json snapshot_json
content_json c = obj (
    field (codes "schema") (str (codes "rolekit/execution-plan-content@1")) (
      field (codes "role") (snapshot_json (role_json c.role) c.role_digest) (
        field (codes "task") (snapshot_json (task_json c.task) c.task_digest) (
          field (codes "contract") (contract_json c.contract) (
            field (codes "contractDigest") (str c.contract_digest) (
              field (codes "executor") (executor_json c.executor) (
                field (codes "workspace") (workspace_json c.workspace)
                  (field (codes "policy") (policy_json c.policy) end))))))))

unfoldable pub plan_json : ExecutionPlan → Json
unfolding content_json
plan_json p = obj (
    field (codes "schema") (str (codes "rolekit/execution-plan@1")) (
      field (codes "runId") (str p.run_id) (
        field (codes "createdAt") (str p.created_at) (
          field (codes "content") (content_json p.content)
            (field (codes "contentDigest") (str p.content_digest) end)))))

-- `canonicalJson(a) === canonicalJson(b)`
unfoldable pub same_json : Json → Json → Bool
unfolding encode_canonical text_eq
same_json a b = text_eq (encode_canonical a) (encode_canonical b)
