-- ===== src/Core/Rolekit/Adapter.antt =====
-- What a run takes from an executor adapter, `ExecutorAdapter` of src/core/types.ts, and the documents that
-- an adapter returns. A call either throws or returns a value of unknown origin.
use rolekit.Common.{Bool, Option, List}
use rolekit.Common.Text.{Text}
use rolekit.Common.Thrown.{Thrown}
use rolekit.Core.Json.Data.{Json}
use rolekit.Core.Plan.Data.{RoleSpec, TaskPacket, Admission}
use rolekit.Core.Response.Validate.{Snapshot}
use rolekit.Core.Response.Data.{ExecutorResponse}
use rolekit.Core.Events.Emitter.{AdapterEvent}
use rolekit.Core.Options.Pointers.{Declared}
use rolekit.Core.Options.Prepared.{Copied, Candidate, Prepared}

pub data Attempt {ℓ} (A : Type ℓ) : Type ℓ where
  threw : Thrown → Attempt A
  returned : A → Attempt A

-- `ExecutorDescriptorV2`, as far as a run reads it.
pub record Descriptor : Type 0 where
  pub id : Text
  pub transport : Text
  pub adapter_version : Text
  pub capabilities : List Text
  pub context_isolation : Json

-- `ExecutorProbe`, as far as a run reads it.
pub record Probe : Type 0 where
  pub available : Bool
  pub executor_version : Option Text

-- What `execute` resolves to: its copy, and the strings that `observedResponseString` finds under a key of a
-- value that is no JSON data.
pub record Answer : Type 0 where
  pub value : Copied
  pub shown : Text → Option Text

-- The adapter's own code, as functions. While `execute` runs it may emit events.
pub record Adapter : Type 0 where
  pub id : Text
  pub pointers : Declared
  pub prepare_options : Json → Option Json → Attempt Candidate
  pub inspect : Prepared → Attempt Copied
  pub probe : Prepared → Attempt Copied
  pub admit : RoleSpec → TaskPacket → Prepared → Option Probe → Attempt Copied
  pub execute : RoleSpec → TaskPacket → Prepared → Admission → List AdapterEvent × Attempt Answer

-- JSON data at the type that the code gives it, and what the schema of its kind objects to.
pub record Views : Type 0 where
  pub descriptor_errors : Json → List Text
  pub descriptor_of : Json → Descriptor
  pub probe_errors : Json → List Text
  pub probe_of : Json → Probe
  pub admission_errors : Json → List Text
  pub admission_of : Json → Admission
  pub response_of : Json → Snapshot
  pub response_errors : ExecutorResponse → List Text
