-- ===== src/Core/Events/Tests.antt =====
-- An emitter at concrete calls, and the theorems applied to them.
use rolekit.Common.{true, false, ◌≡◌, refl, none, some, List, [], ◌∷◌, arith, All}
use rolekit.Common.Text.{codes, has, text_eq, includes}
use rolekit.Common.Thrown.{an_error}
use rolekit.Core.Response.Data.{completed, failed}
use rolekit.Core.Redact.Replace.{redact_sensitive_text}
use rolekit.Core.Events.Emitter.{
  info, diagnostic, tool_started, started, terminal, from_adapter, RunEvent, EmitterEnv, fresh,
  Call, emit_started, emit_terminal, emit_adapter, emit_stamped, emit, forward, after_callback,
  failure_message, redacted_event, mark_terminal, emitter_run, run_event,
}
use rolekit.Core.Events.Order.{IsAscending, emitter_run-IsAscending}
use rolekit.Core.Events.Redacted.{IsFree, emitter_run_redacted}

-- The callback fails whenever it is called, with the secret in its message.
abbrev env : EmitterEnv
env = record {
  run_id = codes "1";
  timestamp = λ _. codes "now";
  clock_error = λ _. none;
  sensitive_values = codes "hush" ∷ [];
  adapter_event_errors = λ _. [];
  run_event_errors = λ _. [];
  on_event = some (λ _. some (an_error (codes "hush!")));
  has_logger = true;
}

-- The run ends twice, and an event comes late.
abbrev calls : List Call
calls =
    emit_started
    ∷ emit_adapter (diagnostic info (codes "hush"))
    ∷ emit_terminal completed
    ∷ emit_terminal failed
    ∷ emit_adapter (tool_started (codes "t") none)
    ∷ []

calls_run :
    (emitter_run env fresh calls).delivered
    ≡ run_event env started 1
      ∷ run_event env (from_adapter (diagnostic info (codes "[REDACTED]"))) 2
      ∷ run_event env (terminal completed) 3
      ∷ run_event env (from_adapter (tool_started (codes "t") none)) 4
      ∷ []
unfolding emitter_run emit emit_stamped forward after_callback redacted_event mark_terminal fresh
    redact_sensitive_text text_eq
calls_run = refl

calls_logged :
    (emitter_run env fresh calls).logged ≡ codes "Run event callback failed: [REDACTED]!" ∷ []
unfolding emitter_run emit emit_stamped forward after_callback redacted_event mark_terminal fresh
    failure_message redact_sensitive_text text_eq
calls_logged = refl

emitter_run-IsAscending_example :
    IsAscending 0 (emitter_run env fresh calls).delivered (emitter_run env fresh calls).sequence
emitter_run-IsAscending_example = emitter_run-IsAscending env calls

listed : has env.sensitive_values (codes "hush") ≡ true
unfolding has text_eq
listed = refl

emitter_run_redacted_example :
    All (λ (e : RunEvent). IsFree (codes "hush") e.event) (emitter_run env fresh calls).delivered
    × All (λ t. includes t (codes "hush") ≡ false) (emitter_run env fresh calls).logged
emitter_run_redacted_example =
    emitter_run_redacted env (codes "hush") listed (omega arith) (ground arith) calls
