-- ===== src/Rpc/Model.antt =====
-- `PiRpcClient` of src/adapters/pi-rpc/rpc-client.ts: its state, and what may happen to it.
use rolekit.Common.{ℕ, Bool, Option, none, some, List, [], ◌∷◌, ◌++◌, if◌then◌else◌, ◌⊎◌}
use rolekit.Common.Text.{Text, codes, text_eq, decimal}
use rolekit.Common.Thrown.{Thrown}
use rolekit.Core.Json.Data.{Json, Fields}
use rolekit.Cli.Errors.{CliError}

-- What a client is given: the display of the command, the redaction of texts, `JSON.parse`, the callback,
-- which returns what it throws, and the limit with its default filled in.
pub record RpcEnv : Type 0 where
  pub command_display : Text
  pub redact : Text → Text
  pub parse : Text → Thrown ⊎ Json
  pub on_event : Fields → Option Thrown
  pub max_output_bytes : ℕ

-- `#failure`: an error of a class of its own, or an `Error` that the callback has thrown, by its message.
pub data Failure : Type 0 where
  cli : CliError → Failure
  callback_error : Text → Failure

-- What the promise of a request has settled to.
pub data RequestEnd : Type 0 where
  answered : Fields → RequestEnd
  refused : Failure → RequestEnd
  threw : Thrown → RequestEnd  -- what the executor of the promise has thrown

pub data Completion : Type 0 where
  resolves : Completion
  rejects : Failure → Completion

-- Beside the private fields: how the promises of the requests with an id have settled, the requests that
-- could not be serialized, and what the callback was given, in order, the calls of `terminateProcessTree`,
-- and whether `close` has released the child.
pub record Client : Type 0 where
  pub next_request_id : ℕ
  pub pending : List (Text × Text)  -- the id and the command
  pub output_bytes : ℕ
  pub stderr : Text
  pub failure : Option Failure
  pub closing : Bool
  pub closed : Bool
  pub settled : List (Text × RequestEnd)
  pub unwritten : List (Text × Thrown)
  pub completion : Option Completion
  pub received : List Fields
  pub terminations : ℕ
  pub released : Bool

-- The client, with the variable `stdoutBuffer` of `#attach`.
pub record State : Type 0 where
  pub client : Client
  pub buffer : Text

-- A request is given by its type and by what `JSON.stringify` throws at it, a chunk by its bytes and by the
-- text that the decoder makes of it. What the callback does to the
-- client comes as events of its own.
pub data Event : Type 0 where
  request : Option Text → Option Thrown → Event
  request_timeout : Text → ℕ → Event
  write_error : Text → Thrown → Event
  stdout_data : ℕ → Text → Event
  stdout_end : Text → Event
  stderr_data : ℕ → Text → Event
  stdin_error : Thrown → Event
  process_error : Thrown → Event
  process_close : Option ℕ → Event
  -- `close`, from its call on: the end of its first wait, and of the last one
  close_call close_grace_over close_end : Event

-- The id of a request, by its number.
unfoldable pub request_id : ℕ → Text
unfolding decimal
request_id n = codes "rolekit-" ++ decimal n

-- `map.get(id)`
unfoldable pub lookup : Text → List (Text × Text) → Option Text
unfolding text_eq
lookup id [] = none
lookup id ((k, v) ∷ rest) = if text_eq k id then some v else lookup id rest

-- `map.set(id, command)`
unfoldable pub put : Text → Text → List (Text × Text) → List (Text × Text)
unfolding text_eq
put id command [] = (id, command) ∷ []
put id command ((k, v) ∷ rest) =
    let more = put id command rest in if text_eq k id then (k, command) ∷ rest else (k, v) ∷ more

-- `map.delete(id)`, of a map with each key once
unfoldable pub delete : Text → List (Text × Text) → List (Text × Text)
unfolding text_eq
delete id [] = []
delete id ((k, v) ∷ rest) =
    let more = delete id rest in if text_eq k id then rest else (k, v) ∷ more
