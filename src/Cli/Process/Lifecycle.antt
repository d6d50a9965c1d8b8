-- ===== src/Cli/Process/Lifecycle.antt =====
-- How the promise of `runCliProcess` settles, whatever the order of the events.
use rolekit.Common.{
  ℕ, Bool, true, false, ◌≡◌, ◌⊎◌, inl, inr, ◌++◌, Option, none, some, List, [], ◌∷◌, arith, is_some,
  Option-cases,
}
use rolekit.Common.Text.{Text, codes}
use rolekit.Common.Thrown.{Thrown}
use rolekit.Cli.Errors.{CliError}
use rolekit.Cli.Process.Model.{
  ProcessEnv, Settlement, rejected, pending, State, Event, abort, timeout, stdout_data, stderr_data,
  process_error, close, terminated,
}
use rolekit.Cli.Process.Machine.{step, run, start}

-- What holds between two events.
pub record IsSound (s : State) : Type 0 where
  -- a settled promise has left no timer and no abort listener behind
  pub cleaned : is_some s.settled ≡ true → (s.timer ≡ false) × (s.listening ≡ false)
  -- a termination that is waited for has a reason, and the promise is open
  pub waiting :
      s.termination ≡ pending
      → (is_some s.terminal_error ≡ true) × (s.settled ≡ none) × (s.child ≡ true)
  -- a reason to terminate is always followed up
  pub followed :
      is_some s.terminal_error ≡ true → (s.termination ≡ pending) ⊎ (is_some s.settled ≡ true)
  -- an open promise has a child that can still settle it
  pub open_child : s.settled ≡ none → s.child ≡ true
  -- the timer of an open run with no reason to terminate is armed
  pub armed : s.settled ≡ none → s.terminal_error ≡ none → s.timer ≡ true

module _ (env : ProcessEnv) where
  pub start-IsSound : (aborted : Bool) (spawn : Option Thrown) → IsSound (start env aborted spawn)
  unfolding start
  start-IsSound true spawn = ground arith
  start-IsSound false (some reason) = ground arith
  start-IsSound false none = ground arith

  pub step-IsSound : (s : State) (e : Event) → IsSound s → IsSound (step env s e)
  unfolding step
  step-IsSound s abort h = ground arith
  step-IsSound s timeout h = ground arith
  step-IsSound s (stdout_data chunk) h = ground arith
  step-IsSound s (stderr_data chunk) h = ground arith
  step-IsSound s (process_error reason) h = ground arith
  step-IsSound s (close (some code) none elapsed) h = ground arith
  step-IsSound s (close code signal elapsed) h = ground arith
  step-IsSound s (terminated verified) h = ground arith

  pub run-IsSound : (s : State) (es : List Event) → IsSound s → IsSound (run env s es)
  unfolding run
  run-IsSound s [] h = h
  run-IsSound s (e ∷ es) h = run-IsSound (step env s e) es (step-IsSound s e h)

  step-settled :
      (s : State) (e : Event) {r : Settlement}
      → s.settled ≡ some r
      → (step env s e).settled ≡ some r
  unfolding step
  step-settled s abort h = ground arith
  step-settled s timeout h = ground arith
  step-settled s (stdout_data chunk) h = ground arith
  step-settled s (stderr_data chunk) h = ground arith
  step-settled s (process_error reason) h = ground arith
  step-settled s (close (some code) none elapsed) h = ground arith
  step-settled s (close code signal elapsed) h = ground arith
  step-settled s (terminated verified) h = ground arith

  -- Whatever events follow, in whatever order, a settled promise keeps its settlement.
  pub run-settled :
      (s : State) (es : List Event) {r : Settlement}
      → s.settled ≡ some r
      → (run env s es).settled ≡ some r
  unfolding run
  run-settled s [] h = h
  run-settled s (e ∷ es) h = run-settled (step env s e) es (step-settled s e h)

  -- After every run that begins with `start`, a settled promise has left neither its timer nor its
  -- abort listener behind.
  pub start-run_cleaned :
      (aborted : Bool) (spawn : Option Thrown) (es : List Event)
      → is_some (run env (start env aborted spawn) es).settled ≡ true
      → ((run env (start env aborted spawn) es).timer ≡ false)
        × ((run env (start env aborted spawn) es).listening ≡ false)
  start-run_cleaned aborted spawn es =
      (run-IsSound (start env aborted spawn) es (start-IsSound aborted spawn)).cleaned

  abbrev unverified : CliError → CliError
  unverified e = record e {
    message =
        e.message
        ++ codes
            " Process-tree termination could not be verified within the bounded fallback window.";
  }

  -- What a run that is terminated for the reason `e` may come to: the promise is open and waits with
  -- that reason, or it is rejected with it.
  abbrev pub EndsBy : CliError → State → Type 0
  EndsBy e s =
      ((s.settled ≡ none) × (s.terminal_error ≡ some e) × (s.termination ≡ pending))
      ⊎ ((s.settled ≡ some (rejected e)) ⊎ (s.settled ≡ some (rejected (unverified e))))

  step-EndsBy : (s : State) (ev : Event) (e : CliError) → EndsBy e s → EndsBy e (step env s ev)
  unfolding step
  step-EndsBy s abort e h = ground arith
  step-EndsBy s timeout e h = ground arith
  step-EndsBy s (stdout_data chunk) e h = ground arith
  step-EndsBy s (stderr_data chunk) e h = ground arith
  step-EndsBy s (process_error reason) e h = ground arith
  step-EndsBy s (close (some code) none elapsed) e h = ground arith
  step-EndsBy s (close code signal elapsed) e h = ground arith
  step-EndsBy s (terminated verified) e h = ground arith

  -- Once a reason to terminate is recorded, in the sense of `EndsBy`, whatever events follow: the promise
  -- stays open while the process tree is being terminated, or it is rejected with that very error, to
  -- whose message one sentence may be added.
  pub run-EndsBy :
      (s : State) (es : List Event) (e : CliError) → EndsBy e s → EndsBy e (run env s es)
  unfolding run
  run-EndsBy s [] e h = h
  run-EndsBy s (ev ∷ es) e h = run-EndsBy (step env s ev) es e (step-EndsBy s ev e h)

  settled_of_pending :
      (s : State) (verified : Bool)
      → IsSound s
      → s.termination ≡ pending
      → is_some (step env s (terminated verified)).settled ≡ true
  unfolding step
  settled_of_pending s verified h p = ground arith

  settled_of_close :
      (s : State) (code : Option ℕ) (signal : Option Text) (elapsed : ℕ)
      → IsSound s
      → s.terminal_error ≡ none
      → is_some (step env s (close code signal elapsed)).settled ≡ true
  unfolding step
  settled_of_close s (some code) none elapsed h p = ground arith
  settled_of_close s code signal elapsed h p = ground arith

  -- At every point of a run that begins with `start` the promise is settled; or the process tree is
  -- being terminated, and the end of that termination settles it; or the timeout is armed, no reason
  -- to terminate is recorded, and the child's `close` event settles it.
  pub start-run_settles :
      (aborted : Bool) (spawn : Option Thrown) (es : List Event)
      → let s = run env (start env aborted spawn) es in
        (is_some s.settled ≡ true)
        ⊎ (((s.termination ≡ pending)
              × ((verified : Bool) → is_some (step env s (terminated verified)).settled ≡ true))
            ⊎ ((s.terminal_error ≡ none)
                × (s.timer ≡ true)
                × ((code : Option ℕ) (signal : Option Text) (elapsed : ℕ)
                    → is_some (step env s (close code signal elapsed)).settled ≡ true)))
  start-run_settles aborted spawn es =
      let s : State = run env (start env aborted spawn) es in
      let h = run-IsSound (start env aborted spawn) es (start-IsSound aborted spawn) in
      elim (Option-cases s.settled) [
        | inr (r, done) ↦ inl (rw done)
        | inl open_now ↦ elim (Option-cases s.terminal_error) [
          | inl calm ↦ inr (
              inr (
                calm,
                h.armed open_now calm,
                λ code signal elapsed. settled_of_close s code signal elapsed h calm,
              ))
          | inr (e, why) ↦ elim (h.followed (rw why)) [
            | inl p ↦ inr (inl (p, λ verified. settled_of_pending s verified h p))
            | inr done ↦ inl done
          ]
        ]
      ]
