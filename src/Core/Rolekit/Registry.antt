-- ===== src/Core/Rolekit/Registry.antt =====
-- The state of `Rolekit` of src/core/rolekit.ts, and the operations that change it. `map.set` and `set.add` append
-- their key, which the guard before each of them says is not there yet.
use rolekit.Common.{
  ℕ, Bool, true, false, not, ◌&&◌, ◌||◌, Option, none, some, List, [], ◌∷◌, ◌++◌, map, all, filter,
  if◌then◌else◌, leb, ◌==◌, is_some,
}
use rolekit.Common.Text.{Text, codes, text_eq, has, join}
use rolekit.Common.Sort.{sort_by}
use rolekit.Common.SortedUnique.{text_leb}
use rolekit.Core.Json.Data.{Json, arr, obj, end, field, texts}
use rolekit.Core.Error.{
  Result, ok, err, throw, require, assert_strict_contract, ◌>>=◌, ◌>>◌, invalid_contract,
  duplicate_role, duplicate_adapter, duplicate_run, unknown_adapter, unknown_role,
}
use rolekit.Core.Response.Validate.{duplicate_values}
use rolekit.Core.Plan.Data.{RoleSpec, TaskPacket, ExpectedArtifact}
use rolekit.Core.Plan.Normalize.{PlanEnv, quoted, normalize_json_schema}
use rolekit.Core.Rolekit.Adapter.{Adapter}

pub record Rolekit : Type 0 where
  pub roles : List (Text × RoleSpec)
  pub adapters : List (Text × Adapter)
  pub active_run_ids : List Text

unfoldable pub empty : Rolekit
empty = record { roles = []; adapters = []; active_run_ids = [] }

-- `map.get(key)`
unfoldable pub get {ℓ} : {A : Type ℓ} → Text → List (Text × A) → Option A
unfolding text_eq
get key [] = none
get key ((k, v) ∷ rest) = if text_eq k key then some v else get key rest

abbrev is_alphanumeric : ℕ → Bool
is_alphanumeric c = (leb 48 c && leb c 57) || ((leb 65 c && leb c 90) || (leb 97 c && leb c 122))

-- `ID_PATTERN.test(value)`
unfoldable pub is_id : Text → Bool
is_id [] = false
is_id (c ∷ t) =
    is_alphanumeric c
    && all (λ d. is_alphanumeric d || (d == 46 || (d == 95 || (d == 47 || d == 45)))) t

-- `roleSnapshot` on JSON data
unfoldable pub role_snapshot : PlanEnv → RoleSpec → Result RoleSpec
unfolding normalize_json_schema
role_snapshot env role = do
  input_schema ←
      normalize_json_schema env (quoted (codes "Role ") role.id (codes " inputSchema"))
        role.input_schema
  output_schema ←
      normalize_json_schema env (quoted (codes "Role ") role.id (codes " outputSchema"))
        role.output_schema
  let snapshot = record role { input_schema = input_schema; output_schema = output_schema }
  assert_strict_contract (quoted (codes "Role ") role.id []) (env.role_errors snapshot)
  ok snapshot

abbrev throw_if : Bool → Result (Unit {0}) → Result (Unit {0})
throw_if true thrown = thrown
throw_if false thrown = ok tt

unfoldable pub register_role : PlanEnv → RoleSpec → Rolekit → Result Rolekit
unfolding get
register_role env role kit = do
  snapshot ← role_snapshot env role
  throw_if (is_some (get snapshot.id kit.roles))
      (throw duplicate_role (quoted (codes "Role ") snapshot.id (codes " is already registered.")))
  ok (record kit { roles = kit.roles ++ ((snapshot.id, snapshot) ∷ []) })

-- A value that is registered as an adapter: its id, none where it is no string, with its text; the
-- required methods that are no functions, in the order of the check; and whether `cancel` is something
-- other than a function.
pub record AdapterCandidate : Type 0 where
  pub id : Option Text
  pub id_text : Text
  pub missing_methods : List Text
  pub bad_cancel : Bool
  pub adapter : Adapter

unfoldable pub valid_id : Option Text → Bool
unfolding is_id
valid_id none = false
valid_id (some id) = is_id id

abbrev require_methods : Text → List Text → Result (Unit {0})
require_methods id [] = ok tt
require_methods id (m ∷ ms) = throw invalid_contract (
    quoted (codes "Adapter ") id
      (codes " must implement " ++ (m ++ codes "() for rolekit/executor-adapter@1.")))

unfoldable pub register_adapter : AdapterCandidate → Rolekit → Result Rolekit
unfolding get valid_id
register_adapter c kit = do
  require (valid_id c.id)
      (quoted (codes "Adapter id ") c.id_text (codes " is not a valid portable identifier."))
  require_methods c.id_text c.missing_methods
  require (not c.bad_cancel)
      (quoted (codes "Adapter ") c.id_text (codes " cancel must be a function when provided."))
  throw_if (is_some (get c.id_text kit.adapters)) (
      throw duplicate_adapter
        (quoted (codes "Adapter ") c.id_text (codes " is already registered.")))
  ok (record kit { adapters = kit.adapters ++ ((c.id_text, c.adapter) ∷ []) })

unfoldable pub list_ids {ℓ} : {A : Type ℓ} → List (Text × A) → List Text
unfolding sort_by text_leb
list_ids entries = sort_by text_leb (map (λ e. e.0) entries)

-- `#registeredAdapter`
unfoldable pub registered_adapter : Text → Rolekit → Result Adapter
unfolding get
registered_adapter id kit = elim (get id kit.adapters) [
  | none ↦
      throw unknown_adapter (quoted (codes "Executor adapter ") id (codes " is not registered."))
  | some a ↦ ok a
]

abbrev reject_repeated : Text → List Text → Result (Unit {0})
reject_repeated task_id [] = ok tt
reject_repeated task_id (d ∷ ds) = throw invalid_contract (
    quoted (codes "Task ") task_id
      (codes " repeats expected artifact names: " ++ (join (codes ", ") (d ∷ ds) ++ codes ".")))

abbrev reject_input : Text → Text → List Text → Result (Unit {0})
reject_input task_id role_id [] = ok tt
reject_input task_id role_id (e ∷ es) = err (record {
  code = invalid_contract;
  message = quoted (codes "Task ") task_id (
      codes " input does not match role "
      ++ quoted [] role_id (codes ": " ++ join (codes "; ") (e ∷ es)));
  details = some (obj (field (codes "errors") (arr (texts (e ∷ es))) end));
})

abbrev or_unknown : Option RoleSpec → Text → Result RoleSpec
or_unknown none id = throw unknown_role (quoted (codes "Role ") id (codes " is not registered."))
or_unknown (some r) id = ok r

-- `#resolveTask`; `check` is `validateStrictValue`. The task's frozen copy is the task.
unfoldable pub resolve_task :
    PlanEnv → (Json → Json → List Text) → TaskPacket → Rolekit → Result (TaskPacket × RoleSpec)
unfolding get
resolve_task env check task kit = do
  assert_strict_contract (quoted (codes "Task ") task.task_id []) (env.task_errors task)
  role ← or_unknown (get task.role_id kit.roles) task.role_id
  reject_repeated task.task_id
      (duplicate_values (map (λ (a : ExpectedArtifact). a.name) task.expected_artifacts))
  reject_input task.task_id role.id (check role.input_schema task.input)
  ok (task, role)

-- The start of `run`: an id that is active is refused, and another becomes active.
unfoldable pub enter_run : Text → Rolekit → Result Rolekit
unfolding has
enter_run id kit = do
  throw_if (has kit.active_run_ids id)
      (throw duplicate_run (quoted (codes "Run id ") id (codes " is already active.")))
  ok (record kit { active_run_ids = kit.active_run_ids ++ (id ∷ []) })

-- The `finally` of `run`: `set.delete(id)`.
unfoldable pub leave_run : Text → Rolekit → Rolekit
unfolding text_eq
leave_run id kit = record kit {
  active_run_ids = filter (λ other. not (text_eq other id)) kit.active_run_ids;
}

-- What may happen to an instance, runs of it going on at the same time.
pub data Change : Type 0 where
  add_role : RoleSpec → Change
  add_adapter : AdapterCandidate → Change
  enters leaves : Text → Change

abbrev kept : Rolekit → Result Rolekit → Rolekit
kept kit (ok next) = next
kept kit (err e) = kit

unfoldable pub change : PlanEnv → Rolekit → Change → Rolekit
unfolding register_role register_adapter enter_run leave_run
change env kit (add_role role) = kept kit (register_role env role kit)
change env kit (add_adapter c) = kept kit (register_adapter c kit)
change env kit (enters id) = kept kit (enter_run id kit)
change env kit (leaves id) = leave_run id kit

unfoldable pub changes : PlanEnv → Rolekit → List Change → Rolekit
unfolding change
changes env kit [] = kit
changes env kit (c ∷ cs) = changes env (change env kit c) cs
