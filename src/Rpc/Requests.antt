-- ===== src/Rpc/Requests.antt =====
-- Requests of `PiRpcClient` of src/adapters/pi-rpc/rpc-client.ts: how they begin, settle and time out, and the
-- failure that settles all of them.
use rolekit.Common.{
  ℕ, ◌+◌, Bool, false, ◌||◌, ◌⊎◌, inl, inr, Option, none, some, List, [], ◌∷◌, ◌++◌, if◌then◌else◌,
  is_some, ◌==◌,
}
use rolekit.Common.Text.{Text, codes, text_eq, decimal}
use rolekit.Common.Thrown.{Thrown}
use rolekit.Core.Json.Data.{Json, bool, str}
use rolekit.Cli.Errors.{io_error, protocol_error, timeout_error, plain_error}
use rolekit.Rpc.Model.{
  Failure, cli, RequestEnd, refused, threw, Client, State, request_id, lookup, put, delete,
}

unfoldable pub fresh : State
fresh = record {
  client = record {
    next_request_id = 1;
    pending = [];
    output_bytes = 0;
    stderr = [];
    failure = none;
    closing = false;
    closed = false;
    settled = [];
    unwritten = [];
    completion = none;
    received = [];
    terminations = 0;
    released = false;
  };
  buffer = [];
}

abbrev pub as_string : Option Json → Option Text
as_string (some (str t)) = some t
as_string _ = none

abbrev pub as_boolean : Option Json → Option Bool
as_boolean (some (bool b)) = some b
as_boolean _ = none

abbrev pub protocol : Text → Failure
protocol message = cli (plain_error protocol_error message)

abbrev pub io : Text → Failure
io message = cli (plain_error io_error message)

-- Whether the promise of a request has settled.
unfoldable pub is_settled : Text → List (Text × RequestEnd) → Bool
unfolding text_eq
is_settled id [] = false
is_settled id ((k, how) ∷ ends) = text_eq k id || is_settled id ends

-- A promise that is resolved or rejected, which only its first settlement changes.
unfoldable pub add_end : Text → RequestEnd → List (Text × RequestEnd) → List (Text × RequestEnd)
unfolding is_settled
add_end id how ends = if is_settled id ends then ends else ends ++ ((id, how) ∷ [])

-- A request is no longer pending, and settles.
abbrev pub settle : Text → RequestEnd → Client → Client
settle id how s = record s { pending = delete id s.pending; settled = add_end id how s.settled }

-- The loop of `#rejectPending`.
unfoldable pub reject_all :
    Failure → List (Text × Text) → List (Text × RequestEnd) → List (Text × RequestEnd)
unfolding add_end
reject_all f [] ends = ends
reject_all f ((id, command) ∷ pending) ends = reject_all f pending (add_end id (refused f) ends)

-- `#rejectPending`
unfoldable pub reject_pending : Failure → Client → Client
unfolding reject_all
reject_pending f s = record s { pending = []; settled = reject_all f s.pending s.settled }

-- `#fail`
unfoldable pub fail : Failure → Client → Client
unfolding reject_pending
fail f s =
    if is_some s.failure || s.closed
    then s
    else reject_pending f (record s { failure = some f; terminations = s.terminations + 1 })

-- A code unit that is no newline goes to the first line, or to what is after the last one.
abbrev pub hold : ℕ → List Text × Text → List Text × Text
hold c ([], rest) = ([], c ∷ rest)
hold c (l ∷ ls, rest) = ((c ∷ l) ∷ ls, rest)

-- The complete lines of a text, and what is after the last of them.
unfoldable pub split_lines : Text → List Text × Text
split_lines [] = ([], [])
split_lines (c ∷ t) =
    let rest = split_lines t in if c == 10 then ([] ∷ rest.0, rest.1) else hold c rest

-- `line.endsWith('\r') ? line.slice(0, -1) : line`
unfoldable pub without_return : Text → Text
without_return [] = []
without_return (c ∷ []) = if c == 13 then [] else c ∷ []
without_return (c ∷ d ∷ t) = c ∷ without_return (d ∷ t)

-- A request type that is a string and not empty.
abbrev pub filled_type : Option Text → Option Text
filled_type none = none
filled_type (some []) = none
filled_type (some (c ∷ t)) = some (c ∷ t)

-- The state in which the executor of the promise serializes the request: it has taken its id and is pending.
abbrev pub begin_request : Text → Client → Client
begin_request command s = record s {
  next_request_id = s.next_request_id + 1;
  pending = put (request_id s.next_request_id) command s.pending;
}

-- What `JSON.stringify` throws rejects the promise, and the request stays pending with its timer.
abbrev pub serialize : Text → Option Thrown → Client → Client
serialize id none s = s
serialize id (some t) s = record s {
  settled = add_end id (threw t) s.settled;
  unwritten = s.unwritten ++ ((id, t) ∷ []);
}

-- How `request` begins, by the request's type and by what `JSON.stringify` throws: the new state, with the
-- id that the request was given.
unfoldable pub send_request : Option Text → Option Thrown → Client → Client × (Failure ⊎ Text)
unfolding request_id put add_end
send_request type thrown s = elim s.failure [
  | some f ↦ (s, inl f)
  | none ↦
      if s.closing || s.closed
      then (s, inl (io (codes "Pi RPC process is already closing.")))
      else elim (filled_type type) [
        | none ↦ (s, inl (protocol (codes "Pi RPC request type must be non-empty.")))
        | some command ↦ (
          serialize (request_id s.next_request_id) thrown (begin_request command s),
          inr (request_id s.next_request_id),
        )
      ]
]

-- The timer of a request, which is cleared where the request is not pending.
unfoldable pub on_request_timeout : Text → ℕ → Client → Client
unfolding lookup delete add_end fail decimal
on_request_timeout id milliseconds s = elim (lookup id s.pending) [
  | none ↦ s
  | some command ↦
      let f = cli (
        plain_error timeout_error (
          codes "Pi RPC request \""
          ++ (command
              ++ (codes "\" timed out after " ++ (decimal milliseconds ++ codes " ms."))))) in
      fail f (settle id (refused f) s)
]

-- `String(code)`
abbrev pub code_text : Option ℕ → Text
code_text none = codes "null"
code_text (some n) = decimal n

abbrev pub or_one : Option ℕ → ℕ
or_one none = 1
or_one (some n) = n
