-- ===== src/Cli/Process/Tests.antt =====
-- Runs of `runCliProcess` at concrete inputs, and the theorems applied to them.
use rolekit.Common.{
  ℕ, ◌≤◌, Bool, true, false, ◌≡◌, refl, ◌⊎◌, inl, Option, none, some, List, [], ◌∷◌, is_some,
}
use rolekit.Common.Text.{Text, codes, decimal, trim}
use rolekit.Cli.Errors.{CliError, plain_error, timeout_error}
use rolekit.Cli.Process.Model.{
  ProcessEnv, ProcessResult, resolved, pending, Event, abort, timeout, stdout_data, stderr_data,
  close, terminated, output_excerpt, with_command,
}
use rolekit.Cli.Process.Machine.{step, run, start}
use rolekit.Cli.Process.Lifecycle.{
  run-settled, start-run_cleaned, EndsBy, run-EndsBy, start-run_settles,
}
use rolekit.Cli.Process.Output.{stored, start-run_bounded}
use rolekit.Cli.Process.Complete.{IsComplete, start-run-IsComplete}

abbrev env : ProcessEnv
env = record {
  command_display = codes "tool";
  executable_path = codes "/bin/tool";
  redact = λ t. t;
  decode = λ b. b;
  max_output_bytes = 4;
  timeout_ms = 50;
}

machine : Unit {0}
unfolding start run step output_excerpt with_command plain_error decimal trim
machine = tt

-- Output in two chunks, a line on stderr, a clean exit, and an abort that comes too late.
abbrev good : List Event
good =
    stdout_data (codes "ok")
    ∷ stderr_data (codes "!")
    ∷ stdout_data (codes ".")
    ∷ close (some 0) none 7
    ∷ abort
    ∷ []

abbrev good_result : ProcessResult
good_result = record {
  exit_code = 0;
  stdout = codes "ok.";
  stderr = codes "!";
  duration_ms = 7;
  executable_path = codes "/bin/tool";
  command_display = codes "tool";
}

good_run : (run env (start env false none) good).settled ≡ some (resolved good_result)
unfolding machine
good_run = refl

-- The fifth byte is over the limit: four bytes stay stored, and the termination begins.
abbrev flood : List Event
flood = stdout_data (codes "abc") ∷ stderr_data (codes "de") ∷ []

flood_run :
    ((run env (start env false none) flood).output_bytes ≡ 4)
    × ((run env (start env false none) flood).stderr ≡ codes "d" ∷ [])
    × ((run env (start env false none) flood).termination ≡ pending)
    × ((run env (start env false none) flood).settled ≡ none)
unfolding machine
flood_run = (refl, refl, refl, refl)

run-settled_example :
    (run env (run env (start env false none) good) (abort ∷ close (some 1) none 9 ∷ [])).settled
    ≡ some (resolved good_result)
run-settled_example =
    run-settled env (run env (start env false none) good) (abort ∷ close (some 1) none 9 ∷ [])
      good_run

good_settled : is_some (run env (start env false none) good).settled ≡ true
unfolding machine
good_settled = refl

start-run_cleaned_example :
    ((run env (start env false none) good).timer ≡ false)
    × ((run env (start env false none) good).listening ≡ false)
start-run_cleaned_example = start-run_cleaned env false none good good_settled

abbrev timed_out : CliError
timed_out = plain_error timeout_error (codes "CLI execution timed out after 50 ms. Command: tool.")

timeout_recorded : EndsBy env timed_out (run env (start env false none) (timeout ∷ []))
unfolding machine
timeout_recorded = inl (refl, refl, refl)

run-EndsBy_example :
    EndsBy env timed_out
      (run env (run env (start env false none) (timeout ∷ [])) (close (some 0) none 9 ∷ abort ∷ []))
run-EndsBy_example =
    run-EndsBy env (run env (start env false none) (timeout ∷ []))
      (close (some 0) none 9 ∷ abort ∷ []) timed_out timeout_recorded

start-run_settles_example :
    let s = run env (start env false none) flood in
    (is_some s.settled ≡ true)
    ⊎ (((s.termination ≡ pending)
          × ((verified : Bool) → is_some (step env s (terminated verified)).settled ≡ true))
        ⊎ ((s.terminal_error ≡ none)
            × (s.timer ≡ true)
            × ((code : Option ℕ) (signal : Option Text) (elapsed : ℕ)
                → is_some (step env s (close code signal elapsed)).settled ≡ true)))
start-run_settles_example = start-run_settles env false none flood

start-run_bounded_example :
    let s = run env (start env false none) flood in (stored s ≤ 4) × (s.output_bytes ≡ stored s)
start-run_bounded_example = start-run_bounded env false none flood

start-run-IsComplete_example : IsComplete env [] [] good good_result
start-run-IsComplete_example = start-run-IsComplete env good good_result good_run
