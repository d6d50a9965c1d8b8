-- ===== src/Rpc/Responses.antt =====
-- What `PiRpcClient` of src/adapters/pi-rpc/rpc-client.ts reads: lines, responses and events.
use rolekit.Common.{
  Bool, not, ◌⊎◌, inl, inr, none, some, List, [], ◌∷◌, ◌++◌, if◌then◌else◌, length, ◌==◌,
}
use rolekit.Common.Text.{Text, codes, text_eq}
use rolekit.Common.Thrown.{Thrown, an_error, a_string, another, safe_error_message}
use rolekit.Core.Json.Data.{Json, obj, Fields, member}
use rolekit.Rpc.Model.{
  RpcEnv, Failure, callback_error, answered, refused, Client, State, lookup, delete,
}
use rolekit.Rpc.Requests.{
  as_string, as_boolean, protocol, io, add_end, settle, fail, split_lines, without_return,
}

module _ (env : RpcEnv) where
  open env use {redact}

  abbrev pub reason : Thrown → Text
  reason t = redact (safe_error_message (codes "Unknown Pi RPC process error.") t)

  unfoldable pub on_write_error : Text → Thrown → Client → Client
  unfolding lookup delete add_end safe_error_message
  on_write_error id t s = elim (lookup id s.pending) [
    | none ↦ s
    | some command ↦
        settle id
          (refused (
            io (
              codes "Pi RPC request \""
              ++ (command ++ (codes "\" could not be written: " ++ reason t)))))
          s
  ]

  -- `#handleResponse` once its request is found and is no longer pending.
  unfoldable pub take_response : Text → Text → Bool → Text → Fields → Client → Client
  unfolding text_eq member fail delete add_end
  take_response id command success given fs s =
      let mismatch = protocol (
        codes "Pi RPC response command \""
        ++ (given ++ (codes "\" did not match \"" ++ (command ++ codes "\".")))) in
      if not (text_eq given command)
      then fail mismatch (settle id (refused mismatch) s)
      else if success
      then settle id (answered fs) s
      else settle id
          (refused (
            protocol (
              codes "Pi RPC command \""
              ++ (command
                  ++ (codes "\" failed: "
                      ++ redact (elim (as_string (member (codes "error") fs)) [
                        | some t ↦ t
                        | none ↦ codes "Unknown protocol failure."
                      ]))))))
          s

  unfoldable pub find_response : Text → Text → Bool → Fields → Client → Client
  unfolding lookup fail take_response
  find_response id given success fs s = elim (lookup id s.pending) [
    | none ↦
        fail (protocol (codes "Pi RPC response id \"" ++ (id ++ codes "\" was not pending."))) s
    | some command ↦ take_response id command success given fs s
  ]

  -- `#handleResponse`
  unfoldable pub handle_response : Fields → Client → Client
  unfolding member fail find_response
  handle_response fs s =
      let malformed = fail (protocol (codes "Pi RPC response fields were malformed.")) s in
      elim (as_string (member (codes "id") fs)) [
        | none ↦ malformed
        | some id ↦ elim (as_string (member (codes "command") fs)) [
          | none ↦ malformed
          | some given ↦ elim (as_boolean (member (codes "success") fs)) [
            | none ↦ malformed
            | some success ↦ find_response id given success fs s
          ]
        ]
      ]

  abbrev pub callback_failure : Thrown → Failure
  callback_failure (an_error m) = callback_error m
  callback_failure (a_string t) =
      protocol (codes "Pi RPC event handling failed: " ++ reason (a_string t))
  callback_failure another = protocol (codes "Pi RPC event handling failed: " ++ reason another)

  unfoldable pub deliver : Fields → Client → Client
  unfolding fail safe_error_message
  deliver fs s =
      let handed = record s { received = s.received ++ (fs ∷ []) } in
      elim (env.on_event fs) [ none ↦ handed | some t ↦ fail (callback_failure t) handed ]

  abbrev pub not_typed : Failure
  not_typed = protocol (codes "Pi RPC stdout record was not a typed JSON object.")

  -- A line's value.
  unfoldable pub consume_value : Thrown ⊎ Json → Client → Client
  unfolding member fail safe_error_message text_eq handle_response deliver
  consume_value (inl t) s =
      fail (protocol (codes "Pi RPC stdout contained malformed JSONL: " ++ reason t)) s
  consume_value (inr (obj fs)) s = elim (as_string (member (codes "type") fs)) [
    | none ↦ fail not_typed s
    | some type ↦ if text_eq type (codes "response") then handle_response fs s else deliver fs s
  ]
  consume_value (inr _) s = fail not_typed s

  unfoldable pub consume_line : Text → Client → Client
  unfolding without_return fail consume_value
  consume_line raw s =
      if length (without_return raw) == 0
      then fail (protocol (codes "Pi RPC stdout contained an empty JSONL record.")) s
      else consume_value (env.parse (without_return raw)) s

  unfoldable pub consume_lines : List Text → Client → Client
  unfolding consume_line
  consume_lines [] s = s
  consume_lines (l ∷ ls) s = consume_lines ls (consume_line l s)

  -- The loop of the listener on data.
  unfoldable pub feed : Text → State → State
  unfolding split_lines consume_lines
  feed text s =
      let lines = split_lines (s.buffer ++ text) in
      record { client = consume_lines lines.0 s.client; buffer = lines.1 }
