-- ===== src/Core/Events/Redacted.antt =====
-- No sensitive value reaches the callback in a diagnostic, or the logger.
use rolekit.Common.{◌<◌, true, false, ◌≡◌, inl, inr, List, [], ◌∷◌, length, All, All-append}
use rolekit.Common.Text.{Text, has, includes}
use rolekit.Common.Thrown.{Thrown}
use rolekit.Core.Redact.Replace.{redacted, redact_sensitive_text}
use rolekit.Core.Redact.Absent.{IsDisjoint, redact_sensitive_text_absent}
use rolekit.Core.Events.Emitter.{
  AdapterEvent, assistant_delta, tool_started, tool_completed, usage, diagnostic, AgentEvent,
  terminal, from_adapter, RunEvent, EmitterEnv, Emitter, fresh, Call, failure_message,
  redacted_event, emitter_step, emitter_run,
}
use rolekit.Core.Events.Order.{
  Emits, IsSent, is_started, is_redacted, stays, refused, emits, ends, emitter_step-Stepped,
}

-- The message of a diagnostic does not contain the value.
abbrev pub IsFree : Text → AgentEvent → Type 0
IsFree value (from_adapter (diagnostic level message)) = includes message value ≡ false
IsFree value _ = Unit

module _ (env : EmitterEnv) (value : Text) (there : has env.sensitive_values value ≡ true)
    (filled : 0 < length value) (apart : IsDisjoint redacted value) where
  absent : (t : Text) → includes (redact_sensitive_text t env.sensitive_values) value ≡ false
  absent t = redact_sensitive_text_absent t env.sensitive_values value filled apart there

  redacted_event-IsFree : (a : AdapterEvent) → IsFree value (from_adapter (redacted_event env a))
  unfolding redacted_event
  redacted_event-IsFree (assistant_delta t) = tt
  redacted_event-IsFree (tool_started t c) = tt
  redacted_event-IsFree (tool_completed t c ok) = tt
  redacted_event-IsFree (usage u) = tt
  redacted_event-IsFree (diagnostic level message) = absent message

  sent-IsFree : (event : AgentEvent) → IsSent env event → IsFree value event
  sent-IsFree event (is_started same) = rw same tt
  sent-IsFree event (is_redacted a same) = rw same (redacted_event-IsFree a)

  failure_message_absent : (reason : Thrown) → includes (failure_message env reason) value ≡ false
  unfolding failure_message
  failure_message_absent reason = absent _

  abbrev IsQuiet : Emitter → Type 0
  IsQuiet s =
      All (λ (e : RunEvent). IsFree value e.event) s.delivered
      × All (λ t. includes t value ≡ false) s.logged

  Emits-IsQuiet :
      (event : AgentEvent) (s t : Emitter)
      → IsFree value event
      → Emits env event s t
      → IsQuiet s
      → IsQuiet t
  Emits-IsQuiet event s t p m h = (
    elim m.handed [
      | inl same ↦ rw same h.0
      | inr more ↦
          rw more (All-append (λ (e : RunEvent). IsFree value e.event) s.delivered _ h.0 (p, tt))
    ],
    elim m.told [
      | inl (same, _) ↦ rw same h.1
      | inr (_, _, (reason, more)) ↦ rw more (
          All-append (λ t. includes t value ≡ false) s.logged _ h.1
            (failure_message_absent reason, tt))
    ],
  )

  step-IsQuiet : (s : Emitter) (c : Call) → IsQuiet s → IsQuiet (emitter_step env s c).0
  step-IsQuiet s c h = elim (emitter_step-Stepped env s c) [
    | stays same ↦ rw same h
    | refused same ↦ rw same h
    | emits event sent m ↦
        Emits-IsQuiet event s (emitter_step env s c).0 (sent-IsFree event sent) m h
    | ends status u p m same ↦ rw same (Emits-IsQuiet (terminal status) s u tt m h)
  ]

  run-IsQuiet : (s : Emitter) (cs : List Call) → IsQuiet s → IsQuiet (emitter_run env s cs)
  unfolding emitter_run
  run-IsQuiet s [] h = h
  run-IsQuiet s (c ∷ cs) h = run-IsQuiet (emitter_step env s c).0 cs (step-IsQuiet s c h)

  fresh-IsQuiet : IsQuiet fresh
  unfolding fresh
  fresh-IsQuiet = (tt, tt)

  -- A sensitive value that is not empty and shares no code unit with the marker "[REDACTED]" occurs in
  -- no message of a diagnostic that the callback receives, and in no message that the logger receives.
  pub emitter_run_redacted :
      (cs : List Call)
      → All (λ (e : RunEvent). IsFree value e.event) (emitter_run env fresh cs).delivered
        × All (λ t. includes t value ≡ false) (emitter_run env fresh cs).logged
  emitter_run_redacted cs = run-IsQuiet fresh cs fresh-IsQuiet
