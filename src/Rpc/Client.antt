-- ===== src/Rpc/Client.antt =====
-- `PiRpcClient` of src/adapters/pi-rpc/rpc-client.ts: its listeners and `close`, as steps on its state.
use rolekit.Common.{
  ℕ, zero, suc, ◌+◌, Bool, true, false, not, ◌&&◌, Option, none, some, List, [], ◌∷◌, ◌++◌,
  if◌then◌else◌, ltb, leb, length, ◌==◌,
}
use rolekit.Common.Text.{Text, codes, trim, decimal}
use rolekit.Common.Thrown.{Thrown, safe_error_message}
use rolekit.Cli.Errors.{exit_error, output_limit_error, spawn_error, plain_error}
use rolekit.Rpc.Model.{
  RpcEnv, Failure, cli, Completion, resolves, rejects, Client, State, Event, request,
  request_timeout, write_error, stdout_data, stdout_end, stderr_data, stdin_error, process_error,
  process_close, close_call, close_grace_over, close_end,
}
use rolekit.Rpc.Requests.{
  protocol, io, reject_pending, fail, send_request, on_request_timeout, code_text, or_one,
}
use rolekit.Rpc.Responses.{reason, on_write_error, consume_line, feed}

module _ (env : RpcEnv) where
  open env use {redact}

  -- `#retainOutput`: the new state, with what it returns.
  unfoldable pub retain_output : ℕ → Client → Client × Bool
  unfolding fail decimal
  retain_output bytes s =
      let counted = record s { output_bytes = s.output_bytes + bytes } in
      if leb (s.output_bytes + bytes) env.max_output_bytes then (counted, true) else (
        fail
            (cli (
              plain_error output_limit_error (
                codes "Pi RPC output exceeded the "
                ++ (decimal env.max_output_bytes
                    ++ (codes " byte safety limit. Command: "
                        ++ (env.command_display ++ codes "."))))))
            counted,
        false,
      )

  unfoldable pub on_stdout : ℕ → Text → State → State
  unfolding retain_output feed
  on_stdout bytes text s =
      let kept = retain_output bytes s.client in
      if kept.1 then feed env text (record s { client = kept.0 }) else record s { client = kept.0 }

  unfoldable pub on_stdout_end : Text → State → State
  unfolding consume_line
  on_stdout_end text s =
      let last = s.buffer ++ text in
      record {
        client = if ltb 0 (length last) then consume_line env last s.client else s.client;
        buffer = last;
      }

  unfoldable pub on_stderr : ℕ → Text → Client → Client
  unfolding retain_output
  on_stderr bytes text s =
      let kept = retain_output bytes s in
      if kept.1 then record kept.0 { stderr = s.stderr ++ text } else kept.0

  abbrev spawn_failure : Text → Failure
  spawn_failure message =
      cli (record (plain_error spawn_error message) { command_display = some env.command_display })

  abbrev stderr_excerpt : Text → Text
  stderr_excerpt stderr =
      if length (trim stderr) == 0 then [] else codes " Stderr: " ++ redact (trim stderr)

  abbrev exited_with : Option ℕ → Text → Failure
  exited_with code stderr =
      cli
        (record (plain_error exit_error (
          codes "Pi RPC process exited with code "
          ++ (code_text code
              ++ (codes ". Command: "
                  ++ (env.command_display ++ (codes "." ++ stderr_excerpt stderr)))))) {
                    exit_code = some (or_one code);
                    stderr = some (redact stderr);
                    command_display = some env.command_display;
                  })

  -- The failure of a process that exits before it is told to.
  unfoldable pub exit_failure : Option ℕ → Text → Failure
  unfolding trim decimal
  exit_failure none stderr = exited_with none stderr
  exit_failure (some zero) stderr =
      protocol (codes "Pi RPC process exited before the protocol completed.")
  exit_failure (some (suc n)) stderr = exited_with (some (suc n)) stderr

  abbrev first_failure : Option Failure → Failure → Option Failure
  first_failure none f = some f
  first_failure (some g) f = some g

  abbrev completion_of : Option Failure → Bool → Completion
  completion_of none closing = resolves
  completion_of (some f) closing = if closing then resolves else rejects f

  abbrev or_closed : Option Failure → Failure
  or_closed none = io (codes "Pi RPC process closed before a response arrived.")
  or_closed (some f) = f

  -- The listener on `close`, which is called once.
  unfoldable pub on_process_close : Option ℕ → Client → Client
  unfolding exit_failure reject_pending
  on_process_close code s =
      let failure =
        if s.closing then s.failure else first_failure s.failure (exit_failure code s.stderr) in
      if s.closed
      then s
      else reject_pending (or_closed failure) (record s {
        closed = true;
        failure = failure;
        completion = some (completion_of failure s.closing);
      })

  abbrev pub on_client : (Client → Client) → State → State
  on_client f s = record s { client = f s.client }

  abbrev closing_call : Client → Client
  closing_call s = if s.closed then s else record s { closing = true }

  abbrev closing_grace : Client → Client
  closing_grace s =
      if s.closing && not s.closed then record s { terminations = s.terminations + 1 } else s

  abbrev stdin_failed : Thrown → Client → Client
  stdin_failed t s =
      if s.closing then s else fail (io (codes "Pi RPC stdin failed: " ++ reason env t)) s

  unfoldable pub step : State → Event → State
  unfolding send_request on_request_timeout on_write_error on_stdout on_stdout_end on_stderr fail
      safe_error_message on_process_close
  step s (request type thrown) = on_client (λ c. (send_request type thrown c).0) s
  step s (request_timeout id ms) = on_client (on_request_timeout id ms) s
  step s (write_error id t) = on_client (on_write_error env id t) s
  step s (stdout_data bytes text) = on_stdout bytes text s
  step s (stdout_end text) = on_stdout_end text s
  step s (stderr_data bytes text) = on_client (on_stderr bytes text) s
  step s (stdin_error t) = on_client (stdin_failed t) s
  step s (process_error t) =
      on_client (fail (spawn_failure (codes "Pi RPC process failed: " ++ reason env t))) s
  step s (process_close code) = on_client (on_process_close code) s
  step s close_call = on_client closing_call s
  step s close_grace_over = on_client closing_grace s
  step s close_end = on_client (λ c. if c.closing then record c { released = true } else c) s

  unfoldable pub run : State → List Event → State
  unfolding step
  run s [] = s
  run s (e ∷ es) = run (step s e) es
