-- ===== src/Core/Rolekit/Ending.antt =====
-- What the flow of a run of src/core/rolekit.ts works on, and the ways in which it ends by itself.
use rolekit.Common.{
  Bool, true, false, Option, none, some, List, [], ◌++◌, if◌then◌else◌, ltb, length,
}
use rolekit.Common.Text.{Text, codes}
use rolekit.Common.Thrown.{Thrown, an_error, a_string, another}
use rolekit.Core.Json.Data.{Json, str, obj, member}
use rolekit.Core.Error.{Result}
use rolekit.Core.Redact.Replace.{redact_sensitive_text}
use rolekit.Core.Response.Data.{RunStatus, failed, blocked, cancelled, ExecutionError}
use rolekit.Core.Plan.Data.{RoleSpec, TaskPacket, Verdict, allowed, denied}
use rolekit.Core.Plan.Normalize.{quoted}
use rolekit.Core.Plan.Receipt.{RunResult}
use rolekit.Core.Events.Emitter.{AdapterEvent}
use rolekit.Core.Options.Prepared.{Prepared}
use rolekit.Core.Rolekit.Adapter.{Descriptor, Adapter}
use rolekit.Core.Rolekit.Prepare.{Captured}

-- What the abort signal and the clock say at each place where they are read.
pub record Moments : Type 0 where
  pub aborted_before_probe : Bool
  pub aborted_after_probe : Bool
  pub aborted_after_execute : Bool
  pub started_at : Result Text
  pub completed_at : Result Text

-- The parts of a run that its flow works on.
pub record Job : Type 0 where
  pub adapter : Adapter
  pub role : RoleSpec
  pub task : TaskPacket
  pub options : Captured
  pub prepared : Prepared
  pub descriptor : Descriptor
  pub started_at : Text

-- Whether the adapter's `execute` was called, what it emitted, and how the flow ends.
pub record Flow : Type 0 where
  pub executed : Bool
  pub events : List AdapterEvent
  pub outcome : Result RunResult

-- An end without a call of `execute`.
abbrev pub stop : Result RunResult → Flow
stop outcome = record { executed = false; events = []; outcome = outcome }

abbrev pub is_allowed : Verdict → Bool
is_allowed allowed = true
is_allowed (denied e) = false

abbrev pub execution_error : Text → Text → Bool → ExecutionError
execution_error code message retryable = record {
  code = code;
  message = message;
  retryable = retryable;
  details = none;
}

abbrev pub or_fallback : Text → Text → List Text → Text
or_fallback fallback message sensitive_values =
    if ltb 0 (length message) then redact_sensitive_text message sensitive_values else fallback

-- The message of `normalizeAdapterExecutionFailure` without an abort.
unfoldable pub failure_reason : Thrown → List Text → Text
unfolding redact_sensitive_text
failure_reason (an_error m) vs = or_fallback (codes "Executor adapter execution failed.") m vs
failure_reason (a_string t) vs = or_fallback (codes "Executor adapter execution failed.") t vs
failure_reason another vs = codes "Executor adapter execution failed."

-- `observedResponseString` on JSON data
unfoldable pub observed_string : Json → Text → Option Text
unfolding member
observed_string (obj fs) key = elim (member key fs) [ some (str t) ↦ some t | _ ↦ none ]
observed_string _ key = none

abbrev pub nothing_shown : Text → Option Text
nothing_shown key = none

-- The statuses that a run ends with by itself.
pub data EarlyEnd : Type 0 where
  ends_failed ends_blocked ends_cancelled : EarlyEnd

unfoldable pub early_status : EarlyEnd → RunStatus
early_status ends_failed = failed
early_status ends_blocked = blocked
early_status ends_cancelled = cancelled

pub record Ending : Type 0 where
  pub how : EarlyEnd
  pub summary : Text
  pub error : ExecutionError

-- An abort, by where it is seen, and what the caller is told of it.
abbrev pub cancels : Text → Text → Ending
cancels summary message = record {
  how = ends_cancelled;
  summary = summary;
  error = execution_error (codes "cancelled") message false;
}

abbrev pub aborted_early : Ending
aborted_early =
    cancels (codes "Execution was cancelled before the adapter probe started.")
      (codes "The provided abort signal was already aborted.")

abbrev pub aborted_probing : Ending
aborted_probing =
    cancels (codes "Execution was cancelled during the adapter probe.")
      (codes "The adapter probe was cancelled.")

abbrev pub aborted_executing : Ending
aborted_executing =
    cancels (codes "Execution was cancelled during adapter execution.")
      (codes "The provided abort signal was aborted during adapter execution.")

abbrev pub blocks : Text → Text → ExecutionError → Ending
blocks id what error = record {
  how = ends_blocked;
  summary = quoted (codes "Executor ") id (codes " blocked execution during " ++ what);
  error = error;
}

-- `execute` threw; the flag says whether the run was aborted.
unfoldable pub failure_ending : Text → List Text → Bool → Thrown → Ending
unfolding failure_reason
failure_ending id sensitive_values true reason =
    cancels (codes "Execution was cancelled.")
      (codes "The provided abort signal was aborted during adapter execution.")
failure_ending id sensitive_values false reason = record {
  how = ends_failed;
  summary = quoted (codes "Executor ") id (codes " failed.");
  error = execution_error (codes "adapter_error") (failure_reason reason sensitive_values) true;
}
