-- ===== src/Cli/Process/Machine.antt =====
-- src/adapters/cli/process.ts, `runCliProcess`: one child process as a state machine. The promise's
-- executor is `start`, each listener and timer callback is an event of `step`, and the closure's
-- variables are the fields of `State`. Node delivers one event at a time, so a run is a list of
-- events in any order. An event whose listener or timer is gone does nothing.
use rolekit.Common.{
  ℕ, ◌+◌, ◌-◌, min, Bool, true, false, ◌||◌, Option, none, some, List, [], ◌∷◌, ◌++◌, if◌then◌else◌,
  is_some, ltb, ◌==◌, length, concat,
}
use rolekit.Common.Text.{Text, codes, decimal}
use rolekit.Common.Thrown.{Thrown, safe_error_message}
use rolekit.Cli.Errors.{
  CliError, plain_error, timeout_error, aborted_error, output_limit_error, spawn_error, exit_error,
}
use rolekit.Cli.Process.Model.{
  ProcessEnv, ProcessResult, resolved, rejected, Termination, idle, pending, finished, State, Event,
  abort, timeout, stdout_data, stderr_data, process_error, close, terminated,
  copy_retained_output_prefix, push, truncate_redacted, with_command,
}

module _ (env : ProcessEnv) where
  open env use {redact, decode, max_output_bytes}

  unfoldable pub cleanup : State → State
  cleanup s = record s { timer = false; listening = false }

  unfoldable pub settle_rejected : CliError → State → State
  unfolding cleanup
  settle_rejected error s =
      if is_some s.settled then s else record (cleanup s) { settled = some (rejected error) }

  unfoldable pub settle_resolved : ProcessResult → State → State
  unfolding cleanup
  settle_resolved result s =
      if is_some s.settled then s else record (cleanup s) { settled = some (resolved result) }

  unfoldable pub terminate_with : CliError → State → State
  unfolding settle_rejected
  terminate_with error s =
      if is_some s.terminal_error || is_some s.settled
      then s
      else if s.child
      then record s { terminal_error = some error; timer = false; termination = pending }
      else settle_rejected error (record s { terminal_error = some error; timer = false })

  unfoldable pub on_abort : State → State
  on_abort s =
      terminate_with
        (plain_error aborted_error (with_command env (codes "CLI execution was aborted") s)) s

  -- What both `onData` listeners do once the chunk's prefix is stored.
  unfoldable pub after_data : ℕ → State → State
  after_data dropped s =
      if ltb 0 dropped
      then terminate_with
          (plain_error output_limit_error (
            with_command env
              (codes "CLI output exceeded the "
                ++ (decimal max_output_bytes ++ codes " byte safety limit"))
              s))
          s
      else s

  unfoldable pub retained_bytes : List ℕ → State → ℕ
  retained_bytes chunk s = min (max_output_bytes - s.output_bytes) (length chunk)

  unfoldable pub on_stdout : List ℕ → State → State
  unfolding after_data retained_bytes push copy_retained_output_prefix
  on_stdout chunk s =
      if is_some s.terminal_error || is_some s.settled
      then s
      else let kept = retained_bytes chunk s in
        after_data (length chunk - kept) (record s {
          stdout = push s.stdout (copy_retained_output_prefix chunk kept);
          output_bytes = s.output_bytes + kept;
        })

  unfoldable pub on_stderr : List ℕ → State → State
  unfolding after_data retained_bytes push copy_retained_output_prefix
  on_stderr chunk s =
      if is_some s.terminal_error || is_some s.settled
      then s
      else let kept = retained_bytes chunk s in
        after_data (length chunk - kept) (record s {
          stderr = push s.stderr (copy_retained_output_prefix chunk kept);
          output_bytes = s.output_bytes + kept;
        })

  unfoldable pub on_timeout : State → State
  on_timeout s =
      terminate_with
        (plain_error timeout_error (
          with_command env
            (codes "CLI execution timed out after " ++ (decimal env.timeout_ms ++ codes " ms")) s))
        s

  unfoldable pub spawn_failure : Thrown → CliError
  unfolding safe_error_message
  spawn_failure reason =
      record (plain_error spawn_error (
        codes "Failed to spawn "
        ++ (env.command_display
            ++ (codes ": "
                ++ truncate_redacted env
                    (safe_error_message (codes "Unknown process error.") reason))))) {
                      command_display = some env.command_display;
                    }

  unfoldable pub exit_failure : Text → Option ℕ → Option Text → State → CliError
  exit_failure what code signal s = record {
    kind = exit_error;
    message = with_command env what s;
    exit_code = code;
    signal = signal;
    stdout = some (redact (decode (concat s.stdout)));
    stderr = some (redact (decode (concat s.stderr)));
    command_display = some env.command_display;
  }

  unfoldable pub success : ℕ → ℕ → State → ProcessResult
  success code elapsed s = record {
    exit_code = code;
    stdout = redact (decode (concat s.stdout));
    stderr = redact (decode (concat s.stderr));
    duration_ms = elapsed;
    executable_path = redact env.executable_path;
    command_display = env.command_display;
  }

  unfoldable pub on_process_error : Thrown → State → State
  unfolding spawn_failure
  on_process_error reason s =
      if is_some s.terminal_error || is_some s.settled
      then s
      else settle_rejected (spawn_failure reason) s

  -- The four ways out of the `close` listener, in the source's order.
  unfoldable pub close_outcome : Option ℕ → Option Text → ℕ → State → State
  unfolding exit_failure success
  close_outcome code (some signal) elapsed s =
      settle_rejected
        (exit_failure (codes "CLI command terminated by signal " ++ signal) none (some signal) s) s
  close_outcome none none elapsed s =
      settle_rejected
        (exit_failure (codes "CLI command terminated without an exit code") none none s) s
  close_outcome (some code) none elapsed s =
      if code == 0
      then settle_resolved (success code elapsed s) s
      else settle_rejected
          (exit_failure (codes "CLI command exited with code " ++ decimal code) (some code) none s)
          s

  unfoldable pub on_close : Option ℕ → Option Text → ℕ → State → State
  unfolding close_outcome
  on_close code signal elapsed s =
      if is_some s.terminal_error || is_some s.settled
      then s
      else close_outcome code signal elapsed s

  -- The `catch` and `then` after `terminateProcessTree`.
  unfoldable pub on_terminated : Bool → Option CliError → State → State
  unfolding settle_rejected
  on_terminated verified none s = s
  on_terminated verified (some error) s =
      let final = if verified then error else record error {
        message =
            error.message
            ++ codes
                " Process-tree termination could not be verified within the bounded fallback window.";
      } in
      settle_rejected final
        (record s { terminal_error = some final; termination = finished; released = true })

  unfoldable pub is_pending : Termination → Bool
  is_pending pending = true
  is_pending _ = false

  -- One event. A listener registered with `once` is gone before it runs.
  unfoldable pub step : State → Event → State
  unfolding on_abort on_stdout on_stderr on_timeout on_process_error on_close on_terminated
      is_pending terminate_with settle_rejected settle_resolved
  step s abort = if s.listening then on_abort (record s { listening = false }) else s
  step s timeout = if s.timer then on_timeout (record s { timer = false }) else s
  step s (stdout_data chunk) = if s.child then on_stdout chunk s else s
  step s (stderr_data chunk) = if s.child then on_stderr chunk s else s
  step s (process_error reason) = if s.child then on_process_error reason s else s
  step s (close code signal elapsed) = if s.child then on_close code signal elapsed s else s
  step s (terminated verified) =
      if is_pending s.termination then on_terminated verified s.terminal_error s else s

  unfoldable pub run : State → List Event → State
  run s [] = s
  run s (e ∷ es) = run (step s e) es

  unfoldable pub initial : State
  initial = record {
    child = false;
    listening = true;
    timer = false;
    terminal_error = none;
    settled = none;
    stdout = [];
    stderr = [];
    output_bytes = 0;
    termination = idle;
    released = false;
  }

  -- The promise's executor, up to where it returns: whether the signal is aborted already, and what
  -- `spawn` throws.
  unfoldable pub start : Bool → Option Thrown → State
  unfolding initial on_abort spawn_failure terminate_with settle_rejected
  start true spawn_result = on_abort initial
  start false (some reason) = settle_rejected (spawn_failure reason) initial
  start false none = record initial { child = true; timer = true }
