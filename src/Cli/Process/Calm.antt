-- ===== src/Cli/Process/Calm.antt =====
-- What one event does to a run in which nothing has gone wrong.
use rolekit.Common.{
  ℕ, ◌-◌, Bool, true, false, ◌≡◌, refl, ap, ◌∙◌, inl, inr, ◌++◌, Option, none, some, List, [], ◌∷◌,
  arith, is_some, Option-cases, Bool-cases, length, concat, append-nil, ltb, sym, ◌==◌,
}
use rolekit.Common.Text.{Text}
use rolekit.Cli.Errors.{CliError}
use rolekit.Cli.Process.Model.{
  ProcessEnv, Settlement, resolved, rejected, pending, State, Event, abort, timeout, stdout_data,
  stderr_data, process_error, close, terminated, copy_retained_output_prefix, push,
}
use rolekit.Cli.Process.Machine.{retained_bytes, success, step}
use rolekit.Cli.Process.Buffers.{concat_of_push, copy_whole}
use rolekit.Cli.Process.Lifecycle.{EndsBy}

-- The bytes that the child wrote to each stream, as the events deliver them.
abbrev pub received_stdout : List Event → List ℕ
received_stdout [] = []
received_stdout (stdout_data chunk ∷ es) = chunk ++ received_stdout es
received_stdout (e ∷ es) = received_stdout es

abbrev pub received_stderr : List Event → List ℕ
received_stderr [] = []
received_stderr (stderr_data chunk ∷ es) = chunk ++ received_stderr es
received_stderr (e ∷ es) = received_stderr es

-- The run is on, and nothing has gone wrong.
pub record IsCalm (s : State) : Type 0 where
  pub child : s.child ≡ true
  pub no_reason : s.terminal_error ≡ none
  pub open_now : s.settled ≡ none

abbrev is_rejected : Option Settlement → Bool
is_rejected (some (rejected x)) = true
is_rejected _ = false

module _ (env : ProcessEnv) where
  open env use {redact, decode, max_output_bytes}

  -- What one event does to a calm run.
  pub data StepOutcome (s : State) (e : Event) (t : State) : Type 0 where
    goes_on :
        IsCalm t
        → concat t.stdout ≡ concat s.stdout ++ received_stdout (e ∷ [])
        → concat t.stderr ≡ concat s.stderr ++ received_stderr (e ∷ [])
        → StepOutcome s e t
    gives_up : (x : CliError) → EndsBy env x t → StepOutcome s e t
    succeeds :
        (elapsed : ℕ)
        → e ≡ close (some 0) none elapsed
        → t.settled ≡ some (resolved (success env 0 elapsed s))
        → StepOutcome s e t

  calm_unchanged :
      (s : State) (e : Event) (t : State)
      → IsCalm s
      → t ≡ s
      → received_stdout (e ∷ []) ≡ []
      → received_stderr (e ∷ []) ≡ []
      → StepOutcome s e t
  calm_unchanged s e t c same no_out no_err =
      goes_on (rw same c) (rw (same, no_out) (sym (append-nil _)))
        (rw (same, no_err) (sym (append-nil _)))

  given_up :
      (s : State) (e : Event) (t : State)
      → is_some t.terminal_error ≡ true
      → t.settled ≡ none
      → t.termination ≡ pending
      → StepOutcome s e t
  given_up s e t h open_now p = elim (Option-cases t.terminal_error) [
    | inl none_yet ↦ absurd (ground arith)
    | inr (x, why) ↦ gives_up x (inl (open_now, why, p))
  ]

  -- A chunk that fits is stored whole.
  stored_whole :
      (target : List (List ℕ)) (chunk : List ℕ) (n : ℕ)
      → ltb 0 (length chunk - n) ≡ false
      → concat (push target (copy_retained_output_prefix chunk n)) ≡ concat target ++ (chunk ++ [])
  stored_whole target chunk n fits =
      concat_of_push target (copy_retained_output_prefix chunk n)
      ∙ ap (λ c. concat target ++ c) (copy_whole chunk n (ground arith) ∙ sym (append-nil chunk))

  stdout_outcome :
      (s : State) (chunk : List ℕ)
      → IsCalm s
      → StepOutcome s (stdout_data chunk) (step env s (stdout_data chunk))
  unfolding step
  stdout_outcome s chunk c = elim (Bool-cases (ltb 0 (length chunk - retained_bytes env chunk s))) [
    | inl over ↦ given_up s _ _ (ground arith) (ground arith) (ground arith)
    | inr fits ↦
        goes_on (ground arith)
          (ground (arith, stored_whole s.stdout chunk (retained_bytes env chunk s) fits))
          (ground (arith, append-nil (concat s.stderr)))
  ]

  stderr_outcome :
      (s : State) (chunk : List ℕ)
      → IsCalm s
      → StepOutcome s (stderr_data chunk) (step env s (stderr_data chunk))
  unfolding step
  stderr_outcome s chunk c = elim (Bool-cases (ltb 0 (length chunk - retained_bytes env chunk s))) [
    | inl over ↦ given_up s _ _ (ground arith) (ground arith) (ground arith)
    | inr fits ↦
        goes_on (ground arith) (ground (arith, append-nil (concat s.stdout)))
          (ground (arith, stored_whole s.stderr chunk (retained_bytes env chunk s) fits))
  ]

  timeout_outcome : (s : State) → IsCalm s → StepOutcome s timeout (step env s timeout)
  unfolding step
  timeout_outcome s c = elim (Bool-cases s.timer) [
    | inl armed ↦ given_up s _ _ (ground arith) (ground arith) (ground arith)
    | inr spent ↦ calm_unchanged s _ _ c (ground arith) refl refl
  ]

  abort_outcome : (s : State) → IsCalm s → StepOutcome s abort (step env s abort)
  unfolding step
  abort_outcome s c = elim (Bool-cases s.listening) [
    | inl registered ↦ given_up s _ _ (ground arith) (ground arith) (ground arith)
    | inr gone ↦ calm_unchanged s _ _ c (ground arith) refl refl
  ]

  failed : (s : State) (e : Event) (t : State) → is_rejected t.settled ≡ true → StepOutcome s e t
  failed s e t h = elim (Option-cases t.settled) [
    | inl open_now ↦ absurd (ground arith)
    | inr (resolved r, done) ↦ absurd (ground arith)
    | inr (rejected x, done) ↦ gives_up x (inr (inl done))
  ]

  close_step :
      (s : State) (code : Option ℕ) (signal : Option Text) (elapsed : ℕ)
      → IsCalm s
      → StepOutcome s (close code signal elapsed) (step env s (close code signal elapsed))
  unfolding step
  close_step s none none elapsed c = failed s _ _ (ground arith)
  close_step s code (some signal) elapsed c = failed s _ _ (ground arith)
  close_step s (some code) none elapsed c = elim (Bool-cases (code == 0)) [
    | inl is_zero ↦ succeeds elapsed (ground arith) (ground arith)
    | inr other ↦ failed s _ _ (ground arith)
  ]

  pub step_outcome : (s : State) (e : Event) → IsCalm s → StepOutcome s e (step env s e)
  unfolding step
  step_outcome s abort c = abort_outcome s c
  step_outcome s timeout c = timeout_outcome s c
  step_outcome s (stdout_data chunk) c = stdout_outcome s chunk c
  step_outcome s (stderr_data chunk) c = stderr_outcome s chunk c
  step_outcome s (process_error reason) c = failed s _ _ (ground arith)
  step_outcome s (close code signal elapsed) c = close_step s code signal elapsed c
  step_outcome s (terminated verified) c = calm_unchanged s _ _ c (ground arith) refl refl
