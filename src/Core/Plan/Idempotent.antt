-- ===== src/Core/Plan/Idempotent.antt =====
-- Normalizing a second time changes nothing.
use mathlib.Core.Path.{subst}
use rolekit.Common.{
  ◌⊎◌, inl, inr, arith, ◌≡◌, refl, sym, ap, ◌∙◌, Option, none, some, List, [], ◌∷◌, ◌++◌, map,
  append-nil,
}
use rolekit.Common.Text.{Text, codes}
use rolekit.Common.SortedUnique.{sorted_unique, sorted_unique_idempotent}
use rolekit.Core.Json.Data.{Json, obj}
use rolekit.Core.Response.Validate.{duplicate_values}
use rolekit.Core.Error.{RolekitError, Result-cases, ok, err}
use rolekit.Core.Plan.Data.{RoleSpec, ExpectedArtifact, TaskPacket}
use rolekit.Core.Plan.Normalize.{
  PlanEnv, quoted, merge_capabilities, sorted_if_there, merged_if_there, normalize_json_schema,
  normalized_role, normalized_task, normalized_role_and_task,
}

merge_capabilities_idempotent :
    (xs : List Text)
    → merge_capabilities (some (merge_capabilities (some xs ∷ [])) ∷ [])
      ≡ merge_capabilities (some xs ∷ [])
unfolding merge_capabilities
merge_capabilities_idempotent xs =
    ap sorted_unique (append-nil (sorted_unique (xs ++ []))) ∙ sorted_unique_idempotent (xs ++ [])

abbrev role_snapshot : RoleSpec → RoleSpec
role_snapshot r = record r {
  required_capabilities = merge_capabilities (some r.required_capabilities ∷ []);
}

role_snapshot_idempotent : (r : RoleSpec) → role_snapshot (role_snapshot r) ≡ role_snapshot r
role_snapshot_idempotent r =
    ap (λ c. record r { required_capabilities = c })
      (merge_capabilities_idempotent r.required_capabilities)

abbrev task_snapshot : TaskPacket → TaskPacket
task_snapshot t = record t {
  required_capabilities = merged_if_there t.required_capabilities;
  allowed_paths = sorted_if_there t.allowed_paths;
}

merged_if_there_idempotent :
    (o : Option (List Text)) → merged_if_there (merged_if_there o) ≡ merged_if_there o
merged_if_there_idempotent none = refl
merged_if_there_idempotent (some xs) = ap some (merge_capabilities_idempotent xs)

sorted_if_there_idempotent :
    (o : Option (List Text)) → sorted_if_there (sorted_if_there o) ≡ sorted_if_there o
sorted_if_there_idempotent none = refl
sorted_if_there_idempotent (some xs) = ap some (sorted_unique_idempotent xs)

task_snapshot_idempotent : (t : TaskPacket) → task_snapshot (task_snapshot t) ≡ task_snapshot t
task_snapshot_idempotent t = λ i. record t {
  required_capabilities = merged_if_there_idempotent t.required_capabilities i;
  allowed_paths = sorted_if_there_idempotent t.allowed_paths i;
}

module _ (env : PlanEnv) where
  open env use {role_errors, task_errors}

  normalize_json_schema_same :
      (label : Text) (schema result : Json)
      → normalize_json_schema env label schema ≡ ok result
      → normalize_json_schema env label schema ≡ ok schema
  unfolding normalize_json_schema
  normalize_json_schema_same label (obj fs) result h = ground arith
  normalize_json_schema_same label _ result h = cc

  -- A schema is refused or normalized to itself.
  normalize_json_schema-cases :
      (label : Text) (schema : Json)
      → (normalize_json_schema env label schema ≡ ok schema)
        ⊎ ((e : RolekitError) × (normalize_json_schema env label schema ≡ err e))
  normalize_json_schema-cases label schema =
      elim (Result-cases (normalize_json_schema env label schema)) [
        | inl (result, h) ↦ inl (normalize_json_schema_same label schema result h)
        | inr bad ↦ inr bad
      ]

  -- A successful normalization, taken apart.
  record RoleNormal (r r' : RoleSpec) : Type 0 where
    result : r' ≡ role_snapshot r
    accepted : role_errors (role_snapshot r) ≡ []
    input :
        normalize_json_schema env
          (quoted (codes "Role ") r.id (codes " inputSchema"))
          r.input_schema
        ≡ ok r.input_schema
    output :
        normalize_json_schema env
          (quoted (codes "Role ") r.id (codes " outputSchema"))
          r.output_schema
        ≡ ok r.output_schema

  normalized_role-RoleNormal : (r r' : RoleSpec) → normalized_role env r ≡ ok r' → RoleNormal r r'
  unfolding normalized_role
  normalized_role-RoleNormal r r' h =
      elim (normalize_json_schema-cases (quoted (codes "Role ") r.id (codes " inputSchema"))
        r.input_schema) [
          | inr (e, bad) ↦ absurd (ground arith)
          | inl input ↦
              elim (normalize_json_schema-cases
                (quoted (codes "Role ") r.id (codes " outputSchema")) r.output_schema) [
                  | inr (e, bad) ↦ absurd (ground arith)
                  | inl output ↦ record {
                    result = ground arith;
                    accepted = ground arith;
                    input = input;
                    output = output;
                  }
                ]
        ]

  normalized_role_of_snapshot :
      (r r' : RoleSpec)
      → RoleNormal r r'
      → normalized_role env (role_snapshot r) ≡ ok (role_snapshot r)
  unfolding normalized_role
  normalized_role_of_snapshot r r' n =
      rw (n.accepted, n.input, n.output, merge_capabilities_idempotent r.required_capabilities)
        (rw n.accepted)

  pub normalized_role_idempotent :
      (r r' : RoleSpec) → normalized_role env r ≡ ok r' → normalized_role env r' ≡ ok r'
  normalized_role_idempotent r r' h =
      let n = normalized_role-RoleNormal r r' h in
      subst (λ x. normalized_role env x ≡ ok x) (sym n.result) (normalized_role_of_snapshot r r' n)

  record TaskNormal (t t' : TaskPacket) : Type 0 where
    result : t' ≡ task_snapshot t
    accepted : task_errors (task_snapshot t) ≡ []
    distinct : duplicate_values (map (λ (a : ExpectedArtifact). a.name) t.expected_artifacts) ≡ []

  normalized_task-TaskNormal : (t t' : TaskPacket) → normalized_task env t ≡ ok t' → TaskNormal t t'
  unfolding normalized_task
  normalized_task-TaskNormal t t' h = record {
    result = ground arith;
    accepted = ground arith;
    distinct = ground arith;
  }

  normalized_task_of_snapshot :
      (t t' : TaskPacket)
      → TaskNormal t t'
      → normalized_task env (task_snapshot t) ≡ ok (task_snapshot t)
  unfolding normalized_task
  normalized_task_of_snapshot t t' n =
      rw
        (
          n.accepted,
          n.distinct,
          merged_if_there_idempotent t.required_capabilities,
          sorted_if_there_idempotent t.allowed_paths,
        )
        (rw n.accepted)

  pub normalized_task_idempotent :
      (t t' : TaskPacket) → normalized_task env t ≡ ok t' → normalized_task env t' ≡ ok t'
  normalized_task_idempotent t t' h =
      let n = normalized_task-TaskNormal t t' h in
      subst (λ x. normalized_task env x ≡ ok x) (sym n.result) (normalized_task_of_snapshot t t' n)

  -- Normalized snapshots of a role and its task are their own normalization.
  pub normalized_role_and_task_idempotent :
      (r r' : RoleSpec) (t t' : TaskPacket)
      → normalized_role_and_task env r t ≡ ok (r', t')
      → normalized_role_and_task env r' t' ≡ ok (r', t')
  unfolding normalized_role_and_task
  normalized_role_and_task_idempotent r r' t t' h = elim (Result-cases (normalized_role env r)) [
    | inr (e, bad) ↦ absurd (ground arith)
    | inl (a, role_ok) ↦ elim (Result-cases (normalized_task env t)) [
      | inr (e, bad) ↦ absurd (ground arith)
      | inl (b, task_ok) ↦
          let ra = normalized_role_idempotent r a role_ok in
          let tb = normalized_task_idempotent t b task_ok in ground arith
    ]
  ]
