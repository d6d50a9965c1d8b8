-- ===== src/Core/Events/Last.antt =====
-- The terminal event of an emitter that was not given one before.
use rolekit.Common.{
  ◌+◌, true, false, ◌≡◌, refl, ◌∙◌, inl, inr, Option, none, some, List, [], ◌∷◌, ◌++◌, map, arith,
  Bool-cases,
}
use rolekit.Common.Text.{codes}
use rolekit.Common.Thrown.{Thrown}
use rolekit.Core.Error.{Result-cases, assert_strict_contract}
use rolekit.Core.Response.Data.{RunStatus}
use rolekit.Core.Events.Emitter.{
  AdapterEvent, AgentEvent, started, terminal, from_adapter, RunEvent, EmitterEnv, Emitter,
  emit_started, emit_terminal, emit_adapter, forward, numbered, run_event, emit, redacted_event,
  mark_terminal, emitter_step, emitter_run,
}
use rolekit.Core.Events.Order.{forward-Emits, after_callback_lem, emit_lem}

module _ (env : EmitterEnv) where
  emit-terminal_emitted :
      (event : AgentEvent) (s : Emitter)
      → (emit env event s).0.terminal_emitted ≡ s.terminal_emitted
  emit-terminal_emitted event s = elim (emit_lem env event s) [
    | inl (e, kept) ↦ rw kept refl
    | inr sent ↦ rw sent (forward-Emits env event s).same_terminal
  ]

  pub started-terminal_emitted :
      (s : Emitter) → (emitter_step env s emit_started).0.terminal_emitted ≡ s.terminal_emitted
  unfolding emitter_step
  started-terminal_emitted s = emit-terminal_emitted started s

  adapter-terminal_emitted :
      (event : AdapterEvent) (s : Emitter)
      → (emitter_step env s (emit_adapter event)).0.terminal_emitted ≡ s.terminal_emitted
  unfolding emitter_step
  adapter-terminal_emitted event s =
      elim (Result-cases (
        assert_strict_contract (codes "Adapter event")
          (env.adapter_event_errors (redacted_event env event)))) [
            | inl (fine, here) ↦
                rw (emitter_step, here)
                  (emit-terminal_emitted (from_adapter (redacted_event env event)) s)
            | inr (e, here) ↦ rw (emitter_step, here) refl
          ]

  -- An adapter's events do not end the run.
  pub adapters-terminal_emitted :
      (events : List AdapterEvent) (s : Emitter)
      → (emitter_run env s (map emit_adapter events)).terminal_emitted ≡ s.terminal_emitted
  unfolding emitter_run
  adapters-terminal_emitted [] s = refl
  adapters-terminal_emitted (e ∷ es) s =
      adapters-terminal_emitted es (emitter_step env s (emit_adapter e)).0
      ∙ adapter-terminal_emitted e s

  forward-delivered :
      (event : RunEvent) (s : Emitter) (callback : RunEvent → Option Thrown)
      → env.on_event ≡ some callback
      → (forward env event s).delivered ≡ s.delivered ++ (event ∷ [])
  unfolding forward
  forward-delivered event s callback there =
      rw (forward, there)
        (let (_, _, same, _) =
            after_callback_lem env (callback event)
              (record s { delivered = s.delivered ++ (event ∷ []) }) in
          same)

  -- A call that does not throw leaves the terminal event emitted.
  pub terminal_closes :
      (status : RunStatus) (s : Emitter)
      → (emitter_step env s (emit_terminal status)).1 ≡ none
      → (emitter_step env s (emit_terminal status)).0.terminal_emitted ≡ true
  unfolding emitter_step mark_terminal
  terminal_closes status s h = elim (Bool-cases s.terminal_emitted) [
    | inl over ↦ ground arith
    | inr still ↦ elim (emit_lem env (terminal status) s) [
      | inl (e, kept) ↦ absurd (ground arith)
      | inr sent ↦ ground arith
    ]
  ]

  terminal_event :
      (status : RunStatus) (s : Emitter)
      → s.terminal_emitted ≡ false
      → (emitter_step env s (emit_terminal status)).1 ≡ none
      → (emitter_step env s (emit_terminal status)).0.delivered
        ≡ (forward env
            (run_event env (terminal status) (s.sequence + 1))
            (numbered env s)).delivered
  unfolding emitter_step mark_terminal
  terminal_event status s still h = elim (emit_lem env (terminal status) s) [
    | inl (e, kept) ↦ absurd (ground arith)
    | inr sent ↦ ground arith
  ]

  -- The first terminal event that is not refused is handed to the callback, after all others.
  pub terminal-delivered :
      (status : RunStatus) (s : Emitter) (callback : RunEvent → Option Thrown)
      → s.terminal_emitted ≡ false
      → env.on_event ≡ some callback
      → (emitter_step env s (emit_terminal status)).1 ≡ none
      → (emitter_step env s (emit_terminal status)).0.delivered
        ≡ s.delivered ++ (run_event env (terminal status) (s.sequence + 1) ∷ [])
  terminal-delivered status s callback still there h =
      terminal_event status s still h
      ∙ forward-delivered (run_event env (terminal status) (s.sequence + 1)) (numbered env s)
          callback there
