-- ===== src/Cli/Process/Complete.antt =====
-- A run of `runCliProcess` that succeeds loses no output.
use rolekit.Common.{
  ℕ, false, ◌≡◌, refl, ap, ◌++◌, none, some, List, [], ◌∷◌, arith, concat, append-nil, append_assoc,
}
use rolekit.Cli.Errors.{CliError}
use rolekit.Cli.Process.Model.{
  ProcessEnv, ProcessResult, resolved, State, Event, stdout_data, stderr_data, close,
}
use rolekit.Cli.Process.Machine.{success, step, run, start}
use rolekit.Cli.Process.Calm.{
  received_stdout, received_stderr, IsCalm, goes_on, gives_up, succeeds, step_outcome,
}
use rolekit.Cli.Process.Lifecycle.{EndsBy, run-EndsBy, run-settled}

module _ (env : ProcessEnv) where
  open env use {redact, decode}

  -- The `close` event that resolved the promise, and what the streams had delivered before it.
  pub record IsComplete (out err : List ℕ) (es : List Event) (r : ProcessResult) : Type 0 where
    pub before : List Event
    pub after : List Event
    pub elapsed : ℕ
    pub closed : es ≡ before ++ (close (some 0) none elapsed ∷ after)
    pub exited : r.exit_code ≡ 0
    pub stdout_whole : r.stdout ≡ redact (decode (out ++ received_stdout before))
    pub stderr_whole : r.stderr ≡ redact (decode (err ++ received_stderr before))

  received_stdout-cons :
      (e : Event) (es : List Event)
      → received_stdout (e ∷ es) ≡ received_stdout (e ∷ []) ++ received_stdout es
  received_stdout-cons (stdout_data chunk) es = rw append-nil
  received_stdout-cons _ es = refl

  received_stderr-cons :
      (e : Event) (es : List Event)
      → received_stderr (e ∷ es) ≡ received_stderr (e ∷ []) ++ received_stderr es
  received_stderr-cons (stderr_data chunk) es = rw append-nil
  received_stderr-cons _ es = refl

  IsComplete-cons :
      (e : Event) {es : List Event} {r : ProcessResult} (out err : List ℕ)
      → IsComplete (out ++ received_stdout (e ∷ [])) (err ++ received_stderr (e ∷ [])) es r
      → IsComplete out err (e ∷ es) r
  IsComplete-cons e {r} out err c = record {
    before = e ∷ c.before;
    after = c.after;
    elapsed = c.elapsed;
    closed = ap (λ l. e ∷ l) c.closed;
    exited = c.exited;
    stdout_whole = rw (received_stdout-cons e c.before, ← append_assoc) c.stdout_whole;
    stderr_whole = rw (received_stderr-cons e c.before, ← append_assoc) c.stderr_whole;
  }

  not_resolved :
      (x : CliError) (s : State) (r : ProcessResult)
      → EndsBy env x s
      → s.settled ≡ some (resolved r)
      → ⊥
  not_resolved x s r h done = ground arith

  resolved_here :
      (s : State) (e : Event) (es : List Event) (r : ProcessResult) (elapsed : ℕ)
      → e ≡ close (some 0) none elapsed
      → r ≡ success env 0 elapsed s
      → IsComplete (concat s.stdout) (concat s.stderr) (e ∷ es) r
  unfolding success
  resolved_here s e es r elapsed closing same = record {
    before = [];
    after = es;
    elapsed = elapsed;
    closed = ap (λ x. x ∷ es) closing;
    exited = cc;
    stdout_whole = rw (append-nil, same);
    stderr_whole = rw (append-nil, same);
  }

  run-IsComplete :
      (s : State) (es : List Event) (r : ProcessResult)
      → IsCalm s
      → (run env s es).settled ≡ some (resolved r)
      → IsComplete (concat s.stdout) (concat s.stderr) es r
  unfolding run
  run-IsComplete s [] r c done = absurd (ground arith)
  run-IsComplete s (e ∷ es) r c done = elim (step_outcome env s e c) [
    | goes_on c' out err ↦
        IsComplete-cons e (concat s.stdout) (concat s.stderr)
          (rw (← out, ← err) (run-IsComplete (step env s e) es r c' done))
    | gives_up x h ↦
        absurd
          (not_resolved x (run env (step env s e) es) r (run-EndsBy env (step env s e) es x h) done)
    | succeeds elapsed closing won ↦
        let same : r ≡ success env 0 elapsed s = cc (run-settled env (step env s e) es won) in
        resolved_here s e es r elapsed closing same
  ]

  -- Where a run that spawned its child has resolved, no output is lost: the run holds a `close` event with exit code 0 and no signal, and
  -- the result's `stdout` and `stderr` are the redacted texts of all the bytes that each stream had
  -- delivered before that event.
  pub start-run-IsComplete :
      (es : List Event) (r : ProcessResult)
      → (run env (start env false none) es).settled ≡ some (resolved r)
      → IsComplete [] [] es r
  unfolding start
  start-run-IsComplete es r done = run-IsComplete (start env false none) es r (ground arith) done
