-- ===== src/Cli/Process/Model.antt =====
-- src/adapters/cli/process.ts: the data of a run, and the texts of its errors.
use rolekit.Common.{
  ℕ, min, Bool, Option, List, [], ◌∷◌, ◌++◌, if◌then◌else◌, ltb, leb, length, take, concat,
}
use rolekit.Common.Text.{Text, codes, trim}
use rolekit.Common.Thrown.{Thrown}
use rolekit.Cli.Errors.{CliError}

-- What a run is given: the options with their defaults filled in, the display of the command, the
-- redaction of texts and Node's decoding of UTF-8.
pub record ProcessEnv : Type 0 where
  pub command_display : Text
  pub executable_path : Text
  pub redact : Text → Text
  pub decode : List ℕ → Text
  pub max_output_bytes : ℕ
  pub timeout_ms : ℕ

pub record ProcessResult : Type 0 where
  pub exit_code : ℕ
  pub stdout : Text
  pub stderr : Text
  pub duration_ms : ℕ
  pub executable_path : Text
  pub command_display : Text

-- What the promise has settled to.
pub data Settlement : Type 0 where
  resolved : ProcessResult → Settlement
  rejected : CliError → Settlement

-- `terminateProcessTree(runningChild)`: not called, waited for, or over.
pub data Termination : Type 0 where
  idle pending finished : Termination

pub record State : Type 0 where
  pub child : Bool
  pub listening : Bool  -- the abort listener is registered
  pub timer : Bool  -- the timeout is armed
  pub terminal_error : Option CliError
  pub settled : Option Settlement
  pub stdout : List (List ℕ)
  pub stderr : List (List ℕ)
  pub output_bytes : ℕ
  pub termination : Termination
  pub released : Bool  -- the child's streams are destroyed and it is unreferenced

pub data Event : Type 0 where
  abort : Event
  timeout : Event
  stdout_data : List ℕ → Event
  stderr_data : List ℕ → Event
  process_error : Thrown → Event
  -- the exit code, the signal, and `Date.now() - startedAt` read by the handler
  close : Option ℕ → Option Text → ℕ → Event
  -- the termination's promise is over; false if it was rejected
  terminated : Bool → Event

abbrev pub excerpt_characters : ℕ
excerpt_characters = 4096

-- `copyRetainedOutputPrefix`
unfoldable pub copy_retained_output_prefix : List ℕ → ℕ → List ℕ
copy_retained_output_prefix chunk retained = take (min (length chunk) retained) chunk

-- `target.push(prefix)`, where an empty prefix is not stored
unfoldable pub push : List (List ℕ) → List ℕ → List (List ℕ)
push target [] = target
push target (b ∷ bs) = target ++ ((b ∷ bs) ∷ [])

module _ (env : ProcessEnv) where
  open env use {redact, decode, max_output_bytes}

  unfoldable pub truncate_redacted : Text → Text
  truncate_redacted text =
      if leb (length (redact text)) excerpt_characters
      then redact text
      else take excerpt_characters (redact text) ++ (8230 ∷ [])

  unfoldable pub output_excerpt : State → Text
  unfolding truncate_redacted
  output_excerpt s =
      let stderr_text = trim (decode (concat s.stderr)) in
      let stdout_text = trim (decode (concat s.stdout)) in
      if ltb 0 (length stderr_text)
      then codes " Stderr: " ++ truncate_redacted stderr_text
      else if ltb 0 (length stdout_text)
      then codes " Stdout: " ++ truncate_redacted stdout_text
      else []

  -- `${what}. Command: ${commandDisplay}.${outputExcerpt(…)}`
  unfoldable pub with_command : Text → State → Text
  with_command what s =
      what ++ (codes ". Command: " ++ (env.command_display ++ (codes "." ++ output_excerpt s)))
