-- ===== src/Cli/Process/Output.antt =====
-- What `runCliProcess` keeps of the child's output.
use rolekit.Common.{
  ℕ, ◌+◌, ◌≤◌, min, Bool, true, false, ◌≡◌, ap, ◌∙◌, Option, none, some, List, [], ◌∷◌, arith,
  length, concat, length-append,
}
use rolekit.Common.Thrown.{Thrown}
use rolekit.Cli.Process.Model.{
  ProcessEnv, State, Event, abort, timeout, stdout_data, stderr_data, process_error, close,
  terminated, copy_retained_output_prefix, push,
}
use rolekit.Cli.Process.Machine.{retained_bytes, step, run, start}
use rolekit.Cli.Process.Buffers.{concat_of_push, length-copy}

-- The bytes of both buffers.
abbrev pub stored : State → ℕ
stored s = length (concat s.stdout) + length (concat s.stderr)

module _ (env : ProcessEnv) where
  open env use {redact, decode, max_output_bytes}

  -- The counter is the number of bytes stored, and it keeps to the limit.
  pub record IsBounded (s : State) : Type 0 where
    pub counted : s.output_bytes ≡ stored s
    pub limited : s.output_bytes ≤ max_output_bytes

  length_of_push :
      (target : List (List ℕ)) (chunk : List ℕ) (n : ℕ)
      → length (concat (push target (copy_retained_output_prefix chunk n)))
        ≡ length (concat target) + min n (length chunk)
  length_of_push target chunk n =
      ap length (concat_of_push target (copy_retained_output_prefix chunk n))
      ∙ (length-append (concat target) (copy_retained_output_prefix chunk n)
          ∙ ap (λ k. length (concat target) + k) (length-copy chunk n))

  pub step-IsBounded : (s : State) (e : Event) → IsBounded s → IsBounded (step env s e)
  unfolding step
  step-IsBounded s abort h = ground arith
  step-IsBounded s timeout h = ground arith
  step-IsBounded s (stdout_data chunk) h =
      ground (arith, length_of_push s.stdout chunk (retained_bytes env chunk s))
  step-IsBounded s (stderr_data chunk) h =
      ground (arith, length_of_push s.stderr chunk (retained_bytes env chunk s))
  step-IsBounded s (process_error reason) h = ground arith
  step-IsBounded s (close (some code) none elapsed) h = ground arith
  step-IsBounded s (close code signal elapsed) h = ground arith
  step-IsBounded s (terminated verified) h = ground arith

  run-IsBounded : (s : State) (es : List Event) → IsBounded s → IsBounded (run env s es)
  unfolding run
  run-IsBounded s [] h = h
  run-IsBounded s (e ∷ es) h = run-IsBounded (step env s e) es (step-IsBounded s e h)

  start-IsBounded : (aborted : Bool) (spawn : Option Thrown) → IsBounded (start env aborted spawn)
  unfolding start
  start-IsBounded true spawn = ground arith
  start-IsBounded false (some reason) = ground arith
  start-IsBounded false none = ground arith

  -- After every run that begins with `start`, the two output buffers together hold at most
  -- `maxOutputBytes` bytes, and `outputBytes` is their exact number.
  pub start-run_bounded :
      (aborted : Bool) (spawn : Option Thrown) (es : List Event)
      → let s = run env (start env aborted spawn) es in
        (stored s ≤ max_output_bytes) × (s.output_bytes ≡ stored s)
  start-run_bounded aborted spawn es =
      let h = run-IsBounded (start env aborted spawn) es (start-IsBounded aborted spawn) in
      (omega (arith, h.counted, h.limited), h.counted)
