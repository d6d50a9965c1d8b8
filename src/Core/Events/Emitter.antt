-- ===== src/Core/Events/Emitter.antt =====
-- `RunEventEmitter` of src/core/events.ts, with `AgentEvent` and `RunEvent` of src/core/types.ts.
-- A call returns the new state with what it throws. Beside the class's private fields the state keeps
-- what the callback and the logger were given, in order.
use rolekit.Common.{
  ℕ, ◌+◌, Bool, true, false, not, ◌||◌, Option, none, some, List, [], ◌∷◌, ◌++◌, if◌then◌else◌,
}
use rolekit.Common.Text.{Text, codes}
use rolekit.Common.Thrown.{Thrown, safe_error_message}
use rolekit.Core.Error.{RolekitError, ok, err, assert_strict_contract}
use rolekit.Core.Response.Data.{RunStatus, TokenUsage}
use rolekit.Core.Redact.Replace.{redact_sensitive_text}

pub data Level : Type 0 where
  info warning error : Level

-- The events of an adapter: `AgentEvent` without the lifecycle.
pub data AdapterEvent : Type 0 where
  assistant_delta : Text → AdapterEvent
  tool_started : Text → Option Text → AdapterEvent
  tool_completed : Text → Option Text → Bool → AdapterEvent
  usage : TokenUsage → AdapterEvent
  diagnostic : Level → Text → AdapterEvent

pub data AgentEvent : Type 0 where
  started : AgentEvent
  terminal : RunStatus → AgentEvent
  from_adapter : AdapterEvent → AgentEvent

pub record RunEvent : Type 0 where
  pub event : AgentEvent
  pub run_id : Text
  pub sequence : ℕ
  pub created_at : Text

-- What an emitter is given: its options, the validators of the two event schemas, what the clock says at
-- each number of the sequence or throws there, and what the callback does with an event.
pub record EmitterEnv : Type 0 where
  pub run_id : Text
  pub timestamp : ℕ → Text
  pub clock_error : ℕ → Option RolekitError
  pub sensitive_values : List Text
  pub adapter_event_errors : AdapterEvent → List Text
  pub run_event_errors : RunEvent → List Text
  pub on_event : Option (RunEvent → Option Thrown)
  pub has_logger : Bool

pub record Emitter : Type 0 where
  pub sequence : ℕ
  pub terminal_emitted : Bool
  pub callback_failure_logged : Bool
  pub delivered : List RunEvent
  pub logged : List Text

unfoldable pub fresh : Emitter
fresh = record {
  sequence = 0;
  terminal_emitted = false;
  callback_failure_logged = false;
  delivered = [];
  logged = [];
}

-- One of the emitter's public methods, with its argument.
pub data Call : Type 0 where
  emit_started : Call
  emit_terminal : RunStatus → Call
  emit_adapter : AdapterEvent → Call

module _ (env : EmitterEnv) where
  open env use {sensitive_values, run_event_errors}

  unfoldable pub failure_message : Thrown → Text
  unfolding safe_error_message redact_sensitive_text
  failure_message reason =
      redact_sensitive_text
        (codes "Run event callback failed: "
          ++ safe_error_message (codes "Run event callback failed.") reason)
        sensitive_values

  -- The `catch` of `#forward`, after a callback that may have thrown.
  unfoldable pub after_callback : Option Thrown → Emitter → Emitter
  after_callback none s = s
  after_callback (some reason) s =
      if s.callback_failure_logged || not env.has_logger then s else record s {
        callback_failure_logged = true;
        logged = s.logged ++ (failure_message reason ∷ []);
      }

  unfoldable pub forward : RunEvent → Emitter → Emitter
  forward event s = elim env.on_event [
    | none ↦ s
    | some callback ↦
        after_callback (callback event) (record s { delivered = s.delivered ++ (event ∷ []) })
  ]

  abbrev pub run_event : AgentEvent → ℕ → RunEvent
  run_event event n = record {
    event = event;
    run_id = env.run_id;
    sequence = n;
    created_at = env.timestamp n;
  }

  abbrev pub numbered : Emitter → Emitter
  numbered s = record s { sequence = s.sequence + 1 }

  -- `#emit` from the schema's check on.
  unfoldable pub emit_stamped : AgentEvent → Emitter → Emitter × Option RolekitError
  emit_stamped event s =
      let snapshot = run_event event (s.sequence + 1) in
      elim (assert_strict_contract (codes "Run event") (run_event_errors snapshot)) [
        | err e ↦ (numbered s, some e)
        | ok _ ↦ (forward snapshot (numbered s), none)
      ]

  -- `#emit`: the number is used up even if the clock fails or the event is refused.
  unfoldable pub emit : AgentEvent → Emitter → Emitter × Option RolekitError
  unfolding emit_stamped
  emit event s = elim (env.clock_error (s.sequence + 1)) [
    | some e ↦ (numbered s, some e)
    | none ↦ emit_stamped event s
  ]

  unfoldable pub redacted_event : AdapterEvent → AdapterEvent
  unfolding redact_sensitive_text
  redacted_event (diagnostic level message) =
      diagnostic level (redact_sensitive_text message sensitive_values)
  redacted_event event = event

  -- A terminal event counts as emitted only where `#emit` has returned.
  unfoldable pub mark_terminal : Emitter × Option RolekitError → Emitter × Option RolekitError
  mark_terminal (s, none) = (record s { terminal_emitted = true }, none)
  mark_terminal (s, some e) = (s, some e)

  unfoldable pub emitter_step : Emitter → Call → Emitter × Option RolekitError
  emitter_step s emit_started = emit started s
  emitter_step s (emit_terminal status) =
      if s.terminal_emitted then (s, none) else mark_terminal (emit (terminal status) s)
  emitter_step s (emit_adapter event) =
      elim (assert_strict_contract (codes "Adapter event")
        (env.adapter_event_errors (redacted_event event))) [
          | err e ↦ (s, some e)
          | ok _ ↦ emit (from_adapter (redacted_event event)) s
        ]

  -- Calls one after the other, whatever they throw.
  unfoldable pub emitter_run : Emitter → List Call → Emitter
  unfolding emitter_step
  emitter_run s [] = s
  emitter_run s (c ∷ cs) = emitter_run (emitter_step s c).0 cs
