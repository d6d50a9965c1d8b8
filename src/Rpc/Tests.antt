-- ===== src/Rpc/Tests.antt =====
-- A client at concrete events, and the theorems on it.
use rolekit.Common.{
  ◌+◌, true, ◌||◌, ◌≡◌, refl, inr, none, some, List, [], ◌∷◌, ◌++◌, arith, is_some, ◌≤◌, ℕ,
}
use rolekit.Common.Text.{Text, codes, text_eq, decimal, digits_from, trim}
use rolekit.Common.Thrown.{an_error}
use rolekit.Core.Json.Data.{bool, str, obj, Fields, end, field, member}
use rolekit.Cli.Errors.{plain_error, protocol_error}
use rolekit.Rpc.Model.{
  RpcEnv, Failure, cli, answered, refused, threw, Event, request, request_timeout, stdout_data,
  process_close, request_id, lookup, put, delete,
}
use rolekit.Rpc.Requests.{
  is_settled, add_end, reject_all, on_request_timeout, fresh, reject_pending, fail, split_lines,
  without_return, send_request,
}
use rolekit.Rpc.Responses.{
  take_response, find_response, handle_response, deliver, consume_value, consume_line,
  consume_lines, feed,
}
use rolekit.Rpc.Client.{retain_output, on_stdout, exit_failure, on_process_close, step, run}
use rolekit.Rpc.Count.{count}
use rolekit.Rpc.Once.{run_once, run_settles}
use rolekit.Rpc.Frames.{arrivals, bytes_of, text_of, run_joined}

-- Every line is the response to the first request.
abbrev response : Fields
response = field (codes "type") (str (codes "response")) (
    field (codes "id") (str (codes "rolekit-1"))
      (field (codes "command") (str (codes "a")) (field (codes "success") (bool true) end)))

abbrev env : RpcEnv
env = record {
  command_display = codes "pi";
  redact = λ t. t;
  parse = λ t. inr (obj response);
  on_event = λ fs. none;
  max_output_bytes = 100;
}

-- Two requests, a response in two chunks, and the end of the process.
abbrev events : List Event
events =
    request (some (codes "a")) none
    ∷ request (some (codes "b")) none
    ∷ request none none
    ∷ stdout_data 2 (codes "{}")
    ∷ stdout_data 1 (10 ∷ [])
    ∷ process_close (some 0)
    ∷ []

abbrev exited : Failure
exited =
    cli (plain_error protocol_error (codes "Pi RPC process exited before the protocol completed."))

machine : Unit {0}
unfolding fresh is_settled add_end reject_all reject_pending fail split_lines without_return
    send_request take_response find_response handle_response deliver consume_value consume_line
    consume_lines feed retain_output on_stdout exit_failure on_process_close step run request_id
    decimal digits_from lookup put delete member text_eq trim plain_error
machine = tt

events_settle :
    (run env fresh events).client.settled
    ≡ (codes "rolekit-1", answered response) ∷ (codes "rolekit-2", refused exited) ∷ []
unfolding machine
events_settle = refl

events_close :
    (is_some (run env fresh events).client.failure || (run env fresh events).client.closed) ≡ true
unfolding machine
events_close = refl

two_requests : (run env fresh events).client.next_request_id ≡ 3
unfolding machine
two_requests = refl

run_once_example :
    let c = (run env fresh events).client in
    let pending = count (request_id 2) c.pending in
    let settled = count (request_id 2) c.settled in
    (1 ≤ pending + settled)
    × (pending ≤ 1)
    × (settled ≤ 1)
    × (pending + settled ≤ 1 + count (request_id 2) c.unwritten)
run_once_example = run_once env events 2 (omega arith) (omega (arith, two_requests))

run_settles_example : count (request_id 1) (run env fresh events).client.settled ≡ 1
run_settles_example =
    run_settles env events 1 events_close (omega arith) (omega (arith, two_requests))

-- A request that cannot be serialized, and the timer that it leaves.
abbrev unserialized : List Event
unserialized = request (some (codes "a")) (some (an_error (codes "BigInt"))) ∷ []

unserialized_stays :
    ((run env fresh unserialized).client.pending ≡ (codes "rolekit-1", codes "a") ∷ [])
    × ((run env fresh unserialized).client.settled
        ≡ (codes "rolekit-1", threw (an_error (codes "BigInt"))) ∷ [])
unfolding machine
unserialized_stays = (refl, refl)

unserialized_fails :
    is_some
      (run env fresh (unserialized ++ (request_timeout (codes "rolekit-1") 5 ∷ []))).client.failure
    ≡ true
unfolding machine on_request_timeout
unserialized_fails = refl

abbrev chunks : List (ℕ × Text)
chunks = (2, 125 ∷ 10 ∷ []) ∷ (1, codes "x") ∷ []

chunks_fit : fresh.client.output_bytes + bytes_of ((1, codes "{") ∷ chunks) ≤ env.max_output_bytes
unfolding fresh
chunks_fit = omega arith

run_joined_example :
    run env fresh (arrivals ((1, codes "{") ∷ chunks))
    ≡ step env fresh
        (stdout_data (bytes_of ((1, codes "{") ∷ chunks)) (text_of ((1, codes "{") ∷ chunks)))
run_joined_example = run_joined env (1, codes "{") chunks fresh chunks_fit
