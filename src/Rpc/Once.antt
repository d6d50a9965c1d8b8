-- ===== src/Rpc/Once.antt =====
-- Every request is accounted for and settles at most once, and none is left pending when the client has failed or closed.
use rolekit.Common.{
  ℕ, ◌+◌, ◌≤◌, ◌<◌, true, not, ◌||◌, ◌≡◌, refl, ap, inl, inr, Option, List, [], ◌∷◌, ◌++◌, arith,
  ◌&&◌, ltb, length, Bool-cases, is_some, leb,
}
use rolekit.Common.Text.{Text}
use rolekit.Rpc.Model.{
  RpcEnv, Failure, Completion, Client, State, Event, request, request_timeout, write_error,
  stdout_data, stdout_end, stderr_data, stdin_error, process_error, process_close, close_call,
  close_grace_over, close_end, request_id,
}
use rolekit.Rpc.Requests.{fresh, split_lines}
use rolekit.Rpc.Responses.{feed}
use rolekit.Rpc.Client.{
  retain_output, on_stdout, on_stdout_end, on_stderr, on_process_close, step, run,
}
use rolekit.Rpc.Count.{count, issued_once}
use rolekit.Rpc.Valid.{
  IsAccounted, IsValid, fresh-IsValid, kept-IsValid, reject_pending-IsValid, fail-IsValid,
  send_request-IsValid, on_request_timeout-IsValid, if-IsValid,
}
use rolekit.Rpc.Reading.{on_write_error-IsValid, consume_line-IsValid, consume_lines-IsValid}

module _ (env : RpcEnv) where
  retain_output-IsValid :
      (bytes : ℕ) (s : Client) → IsValid s → IsValid (retain_output env bytes s).0
  unfolding retain_output
  retain_output-IsValid bytes s v =
      let counted : IsValid (record s { output_bytes = s.output_bytes + bytes }) =
        kept-IsValid s _ refl refl refl refl refl v in
      elim (Bool-cases (leb (s.output_bytes + bytes) env.max_output_bytes)) [
        | inl fits ↦ rw (retain_output, fits) counted
        | inr over ↦ rw (retain_output, over) (fail-IsValid _ _ counted)
      ]

  on_stdout-IsValid :
      (bytes : ℕ) (text : Text) (s : State)
      → IsValid s.client
      → IsValid (on_stdout env bytes text s).client
  unfolding on_stdout feed
  on_stdout-IsValid bytes text s v = elim (Bool-cases (retain_output env bytes s.client).1) [
    | inl kept ↦
        rw (on_stdout, kept)
          (consume_lines-IsValid env (split_lines (s.buffer ++ text)).0 _
            (retain_output-IsValid bytes s.client v))
    | inr over ↦ rw (on_stdout, over) (retain_output-IsValid bytes s.client v)
  ]

  on_stdout_end-IsValid :
      (text : Text) (s : State) → IsValid s.client → IsValid (on_stdout_end env text s).client
  unfolding on_stdout_end
  on_stdout_end-IsValid text s v = elim (Bool-cases (ltb 0 (length (s.buffer ++ text)))) [
    | inl more ↦ rw (on_stdout_end, more) (consume_line-IsValid env (s.buffer ++ text) s.client v)
    | inr nothing ↦ rw (on_stdout_end, nothing) v
  ]

  on_stderr-IsValid :
      (bytes : ℕ) (text : Text) (s : Client) → IsValid s → IsValid (on_stderr env bytes text s)
  unfolding on_stderr
  on_stderr-IsValid bytes text s v =
      let kept = retain_output-IsValid bytes s v in
      elim (Bool-cases (retain_output env bytes s).1) [
        | inl fits ↦
            rw (on_stderr, fits)
              (kept-IsValid (retain_output env bytes s).0 _ refl refl refl refl refl kept)
        | inr over ↦ rw (on_stderr, over) kept
      ]

  shut-IsAccounted :
      (s : Client) (failure : Option Failure) (completion : Option Completion) (id : Text)
      → IsAccounted s id
      → IsAccounted (record s { closed = true; failure = failure; completion = completion }) id
  shut-IsAccounted s failure completion id a = record {
    pending_once = a.pending_once;
    settled_once = a.settled_once;
    traced = a.traced;
    in_one = a.in_one;
  }

  on_process_close-IsValid :
      (code : Option ℕ) (s : Client) → IsValid s → IsValid (on_process_close env code s)
  unfolding on_process_close
  on_process_close-IsValid code s v =
      if-IsValid s.closed _ _ v
        (reject_pending-IsValid _ _ v.positive (λ id. shut-IsAccounted s _ _ id (v.accounted id)))

  -- The operations that touch neither the requests nor the failure.
  step-IsValid : (s : State) (e : Event) → IsValid s.client → IsValid (step env s e).client
  unfolding step
  step-IsValid s (request type thrown) v = send_request-IsValid type thrown s.client v
  step-IsValid s (request_timeout id ms) v = on_request_timeout-IsValid id ms s.client v
  step-IsValid s (write_error id t) v = on_write_error-IsValid env id t s.client v
  step-IsValid s (stdout_data bytes text) v = on_stdout-IsValid bytes text s v
  step-IsValid s (stdout_end text) v = on_stdout_end-IsValid text s v
  step-IsValid s (stderr_data bytes text) v = on_stderr-IsValid bytes text s.client v
  step-IsValid s (stdin_error t) v = if-IsValid s.client.closing _ _ v (fail-IsValid _ s.client v)
  step-IsValid s (process_error t) v = fail-IsValid _ s.client v
  step-IsValid s (process_close code) v = on_process_close-IsValid code s.client v
  step-IsValid s close_call v =
      if-IsValid s.client.closed _ _ v (kept-IsValid s.client _ refl refl refl refl refl v)
  step-IsValid s close_grace_over v =
      if-IsValid (s.client.closing && not s.client.closed) _ _
        (kept-IsValid s.client _ refl refl refl refl refl v) v
  step-IsValid s close_end v =
      if-IsValid s.client.closing _ _ (kept-IsValid s.client _ refl refl refl refl refl v) v

  run-IsValid : (s : State) (es : List Event) → IsValid s.client → IsValid (run env s es).client
  unfolding run
  run-IsValid s [] v = v
  run-IsValid s (e ∷ es) v = run-IsValid (step env s e) es (step-IsValid s e v)

  -- Whatever happens to a client: every request that it gave an id, from 1 on, is pending or has settled; it is
  -- pending at most once and it settles at most once; and it is both at a time only where what
  -- `JSON.stringify` threw at it has rejected its promise. So every request that could be serialized is
  -- either pending or settled, once.
  pub run_once :
      (es : List Event) (n : ℕ)
      → 1 ≤ n
      → n < (run env fresh es).client.next_request_id
      → let c = (run env fresh es).client in
        let pending = count (request_id n) c.pending in
        let settled = count (request_id n) c.settled in
        (1 ≤ pending + settled)
        × (pending ≤ 1)
        × (settled ≤ 1)
        × (pending + settled ≤ 1 + count (request_id n) c.unwritten)
  run_once es n p q =
      let a = (run-IsValid fresh es fresh-IsValid).accounted (request_id n) in
      let once = issued_once n (run env fresh es).client.next_request_id p q in
      let b = a.pending_once in
      let c = a.settled_once in
      let d = a.traced in let e = a.in_one in (omega arith, omega arith, omega arith, omega arith)

  -- When the client has recorded a failure or its process has closed, every request that it gave an id has
  -- settled, and only once.
  pub run_settles :
      (es : List Event) (n : ℕ)
      → (is_some (run env fresh es).client.failure || (run env fresh es).client.closed) ≡ true
      → 1 ≤ n
      → n < (run env fresh es).client.next_request_id
      → count (request_id n) (run env fresh es).client.settled ≡ 1
  run_settles es n over p q =
      let nothing = (run-IsValid fresh es fresh-IsValid).none_left over in
      let gone = ap (count (request_id n)) nothing in
      let (traced, _, once, _) = run_once es n p q in omega arith
