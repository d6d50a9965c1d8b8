-- ===== src/Core/Plan/Data.antt =====
-- The documents of src/core/types.ts that a plan is made of. They are JSON data, so that a frozen
-- deep copy of one (`freezeJsonSnapshot`) is the same value.
use rolekit.Common.{Option, List}
use rolekit.Common.Text.{Text}
use rolekit.Core.Json.Data.{Json}
use rolekit.Core.Response.Data.{ExecutionError}

pub record RoleSpec : Type 0 where
  pub id : Text
  pub description : Text
  pub required_capabilities : List Text
  pub input_schema : Json
  pub output_schema : Json
  pub instructions : Option Text

pub record ExpectedArtifact : Type 0 where
  pub name : Text
  pub kind : Text
  pub description : Option Text

pub record TaskPacket : Type 0 where
  pub task_id : Text
  pub parent_task_id : Option Text
  pub role_id : Text
  pub objective : Text
  pub input : Json
  pub context : List Json
  pub constraints : List Text
  pub acceptance_criteria : List Text
  pub required_capabilities : Option (List Text)
  pub allowed_paths : Option (List Text)
  pub expected_artifacts : List ExpectedArtifact
  pub metadata : Option Json

pub record ContractRole : Type 0 where
  pub id : Text
  pub description : Text
  pub instructions : Option Text

pub record ContractTask : Type 0 where
  pub task_id : Text
  pub parent_task_id : Option Text
  pub objective : Text
  pub input : Json
  pub context : List Json
  pub constraints : List Text
  pub acceptance_criteria : List Text
  pub allowed_paths : Option (List Text)
  pub expected_artifacts : List ExpectedArtifact
  pub metadata : Option Json

pub record ExecutionContract : Type 0 where
  pub role : ContractRole
  pub required_capabilities : List Text
  pub task : ContractTask
  pub role_output_schema : Json
  pub final_response_rules : List Text

-- `allowed: true`, or `allowed: false` with the error that blocks.
pub data Verdict : Type 0 where
  allowed : Verdict
  denied : ExecutionError → Verdict

pub record Admission : Type 0 where
  pub verdict : Verdict
  pub effective_capabilities : List Text
  pub effective_public_options : Json
  pub path_enforcement : Text
  pub context_isolation : Json

-- `target: 'adapter'` with the adapter's version, or `target: 'host'`.
pub data TargetKind : Type 0 where
  adapter : Text → TargetKind
  host : TargetKind

pub record ExecutionTarget : Type 0 where
  pub kind : TargetKind
  pub id : Text
  pub transport : Text
  pub profile_id : Option Text
  pub profile_digest : Option Text
  pub requested_provider : Option Text
  pub requested_model : Option Text
  pub required_secrets : List Text
  pub admission : Admission

pub record PlanExecutor : Type 0 where
  pub kind : TargetKind
  pub id : Text
  pub transport : Text
  pub profile_id : Option Text
  pub profile_digest : Option Text
  pub requested_provider : Option Text
  pub requested_model : Option Text
  pub public_options : Json
  pub options_digest : Text
  pub required_secrets : List Text

pub record Policy : Type 0 where
  pub admission : Verdict
  pub required_capabilities : List Text
  pub allowed_paths : List Text
  pub path_enforcement : Text
  pub context_isolation : Json

pub record Workspace : Type 0 where
  pub root : Text
  pub revision : Option Text

pub record PlanContent : Type 0 where
  pub role : RoleSpec
  pub role_digest : Text
  pub task : TaskPacket
  pub task_digest : Text
  pub contract : ExecutionContract
  pub contract_digest : Text
  pub executor : PlanExecutor
  pub workspace : Workspace
  pub policy : Policy

pub record ExecutionPlan : Type 0 where
  pub run_id : Text
  pub created_at : Text
  pub content : PlanContent
  pub content_digest : Text

pub record ResolvedPlan : Type 0 where
  pub plan : ExecutionPlan
  pub plan_digest : Text

pub record PlanInput : Type 0 where
  pub role : RoleSpec
  pub task : TaskPacket
  pub target : ExecutionTarget
  pub workspace : Workspace
  pub run_id : Text
  pub created_at : Text
