-- ===== src/Core/Events/Order.antt =====
-- The numbers of the events that a callback receives.
use mathlib.Core.Path.{subst}
use rolekit.Common.{
  ℕ, ◌+◌, ◌≤◌, ◌<◌, Bool, true, false, ◌≡◌, refl, sym, ap, ◌⊎◌, inl, inr, Option, none, some, List,
  [], ◌∷◌, ◌++◌, ◌∙◌, arith, Bool-cases, Option-cases,
}
use rolekit.Common.Text.{codes}
use rolekit.Common.Thrown.{Thrown}
use rolekit.Core.Error.{RolekitError, Result-cases, assert_strict_contract}
use rolekit.Core.Response.Data.{RunStatus}
use rolekit.Core.Events.Emitter.{
  AdapterEvent, AgentEvent, started, terminal, from_adapter, RunEvent, EmitterEnv, Emitter, fresh,
  Call, emit_started, emit_terminal, emit_adapter, failure_message, after_callback, forward,
  numbered, run_event, emit_stamped, emit, redacted_event, mark_terminal, emitter_step, emitter_run,
}

-- From a number to a number, the events' own strictly ascend.
abbrev pub IsAscending : ℕ → List RunEvent → ℕ → Type 0
IsAscending low [] high = low ≤ high
IsAscending low (e ∷ es) high = (low < e.sequence) × IsAscending e.sequence es high

IsAscending-weaken :
    (low : ℕ) (es : List RunEvent) (high higher : ℕ)
    → high ≤ higher
    → IsAscending low es high
    → IsAscending low es higher
IsAscending-weaken low [] high higher p h = omega arith
IsAscending-weaken low (e ∷ es) high higher p (a, h) =
    (a, IsAscending-weaken e.sequence es high higher p h)

IsAscending-push :
    (low : ℕ) (es : List RunEvent) (high : ℕ) (e : RunEvent)
    → high < e.sequence
    → IsAscending low es high
    → IsAscending low (es ++ (e ∷ [])) e.sequence
IsAscending-push low [] high e p h = (omega arith, omega arith)
IsAscending-push low (d ∷ es) high e p (a, h) = (a, IsAscending-push d.sequence es high e p h)

abbrev pub is_terminal : AgentEvent → Bool
is_terminal (terminal status) = true
is_terminal _ = false

module _ (env : EmitterEnv) where
  -- What `#emit` may do to a state.
  pub record Emits (event : AgentEvent) (s t : Emitter) : Type 0 where
    pub counted : t.sequence ≡ s.sequence + 1
    pub same_terminal : t.terminal_emitted ≡ s.terminal_emitted
    pub handed :
        (t.delivered ≡ s.delivered)
        ⊎ (t.delivered ≡ s.delivered ++ (run_event env event (s.sequence + 1) ∷ []))
    pub told :
        ((t.logged ≡ s.logged) × (t.callback_failure_logged ≡ s.callback_failure_logged))
        ⊎ ((s.callback_failure_logged ≡ false)
            × (t.callback_failure_logged ≡ true)
            × ((reason : Thrown) × (t.logged ≡ s.logged ++ (failure_message env reason ∷ []))))

  pub after_callback_lem :
      (outcome : Option Thrown) (s : Emitter)
      → let t = after_callback env outcome s in
        (t.sequence ≡ s.sequence)
        × (t.terminal_emitted ≡ s.terminal_emitted)
        × (t.delivered ≡ s.delivered)
        × (((t.logged ≡ s.logged) × (t.callback_failure_logged ≡ s.callback_failure_logged))
            ⊎ ((s.callback_failure_logged ≡ false)
                × (t.callback_failure_logged ≡ true)
                × ((reason : Thrown) × (t.logged ≡ s.logged ++ (failure_message env reason ∷ [])))))
  unfolding after_callback
  after_callback_lem none s = (refl, refl, refl, inl (refl, refl))
  after_callback_lem (some reason) s = elim (Bool-cases s.callback_failure_logged) [
    | inl told ↦ (ground arith, ground arith, ground arith, inl (ground arith, ground arith))
    | inr first ↦ elim (Bool-cases env.has_logger) [
      | inl there ↦ (
        ground arith,
        ground arith,
        ground arith,
        inr (first, ground arith, (reason, ground arith)),
      )
      | inr gone ↦ (ground arith, ground arith, ground arith, inl (ground arith, ground arith))
    ]
  ]

  pub forward_lem :
      (event : RunEvent) (s : Emitter)
      → (forward env event s ≡ s)
        ⊎ ((outcome : Option Thrown) × (forward env event s
              ≡ after_callback env outcome (record s { delivered = s.delivered ++ (event ∷ []) })))
  unfolding forward
  forward_lem event s = elim (Option-cases env.on_event) [
    | inl nobody ↦ inl (rw nobody refl)
    | inr (callback, there) ↦ inr (callback event, rw there refl)
  ]

  stamped_lem :
      (event : AgentEvent) (s : Emitter)
      → ((e : RolekitError) × (emit_stamped env event s ≡ (numbered env s, some e)))
        ⊎ (emit_stamped env event s
            ≡ (forward env (run_event env event (s.sequence + 1)) (numbered env s), none))
  unfolding emit_stamped
  stamped_lem event s =
      elim (Result-cases (
        assert_strict_contract (codes "Run event")
          (env.run_event_errors (run_event env event (s.sequence + 1))))) [
            | inl (fine, here) ↦ inr (rw (emit_stamped, here) refl)
            | inr (e, here) ↦ inl (e, rw (emit_stamped, here) refl)
          ]

  emit_clocked :
      (event : AgentEvent) (s : Emitter)
      → ((e : RolekitError) × (emit env event s ≡ (numbered env s, some e)))
        ⊎ (emit env event s ≡ emit_stamped env event s)
  unfolding emit
  emit_clocked event s = elim (Option-cases (env.clock_error (s.sequence + 1))) [
    | inl none_thrown ↦ inr (rw (emit, none_thrown) refl)
    | inr (e, thrown) ↦ inl (e, rw (emit, thrown) refl)
  ]

  pub emit_lem :
      (event : AgentEvent) (s : Emitter)
      → ((e : RolekitError) × (emit env event s ≡ (numbered env s, some e)))
        ⊎ (emit env event s
            ≡ (forward env (run_event env event (s.sequence + 1)) (numbered env s), none))
  emit_lem event s = elim (emit_clocked event s) [
    | inl failed ↦ inl failed
    | inr here ↦ elim (stamped_lem event s) [
      | inl (e, there) ↦ inl (e, here ∙ there)
      | inr there ↦ inr (here ∙ there)
    ]
  ]

  pub forward-Emits :
      (event : AgentEvent) (s : Emitter)
      → Emits event s (forward env (run_event env event (s.sequence + 1)) (numbered env s))
  forward-Emits event s =
      elim (forward_lem (run_event env event (s.sequence + 1)) (numbered env s)) [
        | inl nobody ↦ rw nobody (record {
          counted = refl;
          same_terminal = refl;
          handed = inl refl;
          told = inl (refl, refl);
        })
        | inr (outcome, called) ↦
            let (a, b, c, d) = after_callback_lem outcome (record (numbered env s) {
              delivered = s.delivered ++ (run_event env event (s.sequence + 1) ∷ []);
            }) in
            rw called (record { counted = a; same_terminal = b; handed = inr c; told = d })
      ]

  -- The events that are not terminal: the first one, and an adapter's, redacted.
  pub data IsSent (event : AgentEvent) : Type 0 where
    is_started : event ≡ started → IsSent event
    is_redacted : (a : AdapterEvent) → event ≡ from_adapter (redacted_event env a) → IsSent event

  pub not_terminal : (event : AgentEvent) → IsSent event → is_terminal event ≡ false
  not_terminal event (is_started same) = rw same refl
  not_terminal event (is_redacted a same) = rw same refl

  -- A call leaves the state, or uses up a number, or emits one event, a terminal one at most where none
  -- was emitted before.
  pub data Stepped (s t : Emitter) : Type 0 where
    stays : t ≡ s → Stepped s t
    refused : t ≡ numbered env s → Stepped s t
    emits : (event : AgentEvent) → IsSent event → Emits event s t → Stepped s t
    ends :
        (status : RunStatus) (u : Emitter)
        → s.terminal_emitted ≡ false
        → Emits (terminal status) s u
        → t ≡ record u { terminal_emitted = true }
        → Stepped s t

  emit-Stepped : (event : AgentEvent) (s : Emitter) → IsSent event → Stepped s (emit env event s).0
  emit-Stepped event s p = elim (emit_lem event s) [
    | inl (e, kept) ↦ refused (ap (λ (x : Emitter × Option RolekitError). x.0) kept)
    | inr sent ↦ emits event p (rw sent (forward-Emits event s))
  ]

  terminal-Stepped :
      (status : RunStatus) (s : Emitter)
      → s.terminal_emitted ≡ false
      → Stepped s (mark_terminal env (emit env (terminal status) s)).0
  unfolding mark_terminal
  terminal-Stepped status s p = elim (emit_lem (terminal status) s) [
    | inl (e, kept) ↦ refused (ap (λ x. (mark_terminal env x).0) kept)
    | inr sent ↦
        ends status
          (forward env (run_event env (terminal status) (s.sequence + 1)) (numbered env s)) p
          (forward-Emits (terminal status) s) (ap (λ x. (mark_terminal env x).0) sent)
  ]

  pub emitter_step-Stepped : (s : Emitter) (c : Call) → Stepped s (emitter_step env s c).0
  unfolding emitter_step
  emitter_step-Stepped s emit_started = emit-Stepped started s (is_started refl)
  emitter_step-Stepped s (emit_terminal status) = elim (Bool-cases s.terminal_emitted) [
    | inl over ↦ stays (ground arith)
    | inr still ↦
        let here : emitter_step env s (emit_terminal status)
            ≡ mark_terminal env (emit env (terminal status) s) =
          ground arith in
        subst (λ x. Stepped s x) (sym (ap (λ (x : Emitter × Option RolekitError). x.0) here))
          (terminal-Stepped status s still)
  ]
  emitter_step-Stepped s (emit_adapter event) =
      elim (Result-cases (
        assert_strict_contract (codes "Adapter event")
          (env.adapter_event_errors (redacted_event env event)))) [
            | inl (fine, here) ↦
                rw (emitter_step, here)
                  (emit-Stepped (from_adapter (redacted_event env event)) s
                    (is_redacted event refl))
            | inr (e, here) ↦ stays (rw (emitter_step, here) refl)
          ]

  Emits-IsAscending :
      (event : AgentEvent) (s t : Emitter)
      → Emits event s t
      → IsAscending 0 s.delivered s.sequence
      → IsAscending 0 t.delivered t.sequence
  Emits-IsAscending event s t m h = elim m.handed [
    | inl same ↦
        rw (same, m.counted)
          (IsAscending-weaken 0 s.delivered s.sequence (s.sequence + 1) (omega arith) h)
    | inr more ↦
        rw (more, m.counted)
          (IsAscending-push 0 s.delivered s.sequence (run_event env event (s.sequence + 1))
            (omega arith) h)
  ]

  step-IsAscending :
      (s : Emitter) (c : Call)
      → IsAscending 0 s.delivered s.sequence
      → IsAscending 0 (emitter_step env s c).0.delivered (emitter_step env s c).0.sequence
  step-IsAscending s c h = elim (emitter_step-Stepped s c) [
    | stays same ↦ rw same h
    | refused same ↦
        rw same (IsAscending-weaken 0 s.delivered s.sequence (s.sequence + 1) (omega arith) h)
    | emits event _ m ↦ Emits-IsAscending event s (emitter_step env s c).0 m h
    | ends status u _ m same ↦ rw same (Emits-IsAscending (terminal status) s u m h)
  ]

  run-IsAscending :
      (s : Emitter) (cs : List Call)
      → IsAscending 0 s.delivered s.sequence
      → IsAscending 0 (emitter_run env s cs).delivered (emitter_run env s cs).sequence
  unfolding emitter_run
  run-IsAscending s [] h = h
  run-IsAscending s (c ∷ cs) h =
      run-IsAscending (emitter_step env s c).0 cs (step-IsAscending s c h)

  -- Whatever calls an emitter gets and whatever they throw, the events that its callback receives have
  -- strictly ascending sequence numbers, from 1 at the lowest to the emitter's counter at the highest.
  pub emitter_run-IsAscending :
      (cs : List Call)
      → IsAscending 0 (emitter_run env fresh cs).delivered (emitter_run env fresh cs).sequence
  unfolding fresh
  emitter_run-IsAscending cs = run-IsAscending fresh cs (omega arith)
