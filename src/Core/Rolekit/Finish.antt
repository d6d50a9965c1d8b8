-- ===== src/Core/Rolekit/Finish.antt =====
-- How a run ends: its last event, and what it returns or throws.
use rolekit.Common.{
  Bool, true, false, ◌≡◌, refl, sym, ap, ◌∙◌, ◌⊎◌, inl, inr, Option, none, some, map, arith,
  Option-cases,
}
use rolekit.Common.Text.{Text}
use rolekit.Core.Error.{RolekitError, Result, Result-cases, ok, err}
use rolekit.Core.Response.Data.{failed}
use rolekit.Core.Plan.Receipt.{RunResult}
use rolekit.Core.Plan.Finalize.{FinalizeEnv}
use rolekit.Core.Events.Emitter.{
  EmitterEnv, Emitter, fresh, emit_started, emit_terminal, emit_adapter, emitter_step, emitter_run,
}
use rolekit.Core.Events.Last.{started-terminal_emitted, adapters-terminal_emitted, terminal_closes}
use rolekit.Core.Rolekit.Adapter.{Views}
use rolekit.Core.Rolekit.Registry.{Rolekit}
use rolekit.Core.Rolekit.Prepare.{Compilation}
use rolekit.Core.Rolekit.Ending.{Job}
use rolekit.Core.Rolekit.Flow.{run_flow}
use rolekit.Core.Rolekit.Run.{
  Request, Entered, Inside, start_run, emitting_of, job_of, fail_run, complete_run, run_job,
  prepare_run, run_prepared, run_entered, run,
}

-- The emitter has emitted its terminal event, or the error that is thrown is the one of that emission.
abbrev pub IsClosed : EmitterEnv → Emitter → Inside → Type 0
IsClosed emitting s inside =
    (s.terminal_emitted ≡ true)
    ⊎ ((before : Emitter) × (e : RolekitError) × (inside.outcome ≡ err e)
        × (emitter_step emitting before (emit_terminal failed) ≡ (s, some e)))

module _ (views : Views) (env : FinalizeEnv) where
  fail_run-IsClosed :
      (emitting : EmitterEnv) (executed : Bool) (s : Emitter) (e : RolekitError)
      → (t : Emitter) × ((fail_run views env emitting executed s e).emitter ≡ some t)
        × IsClosed emitting t (fail_run views env emitting executed s e)
  unfolding fail_run
  fail_run-IsClosed emitting executed s e =
      elim (Option-cases (emitter_step emitting s (emit_terminal failed)).1) [
        | inl fine ↦ (_, refl, inl (terminal_closes emitting failed s fine))
        | inr (other, bad) ↦ (_, refl, inr (s, other, rw (fail_run, bad) refl, ground arith))
      ]

  fail_run_throws :
      (emitting : EmitterEnv) (executed : Bool) (s : Emitter) (e : RolekitError)
      (result : RunResult)
      → (fail_run views env emitting executed s e).outcome ≡ ok result
      → ⊥
  unfolding fail_run
  fail_run_throws emitting executed s e result h =
      elim (Option-cases (emitter_step emitting s (emit_terminal failed)).1) [
        | inl fine ↦ ground arith
        | inr (other, bad) ↦ ground arith
      ]

  complete_run-IsClosed :
      (emitting : EmitterEnv) (executed : Bool) (s : Emitter) (o : Result RunResult)
      → (t : Emitter) × ((complete_run views env emitting executed s o).emitter ≡ some t)
        × IsClosed emitting t (complete_run views env emitting executed s o)
  unfolding complete_run
  complete_run-IsClosed emitting executed s (err e) = fail_run-IsClosed emitting executed s e
  complete_run-IsClosed emitting executed s (ok result) =
      elim (Option-cases (emitter_step emitting s (emit_terminal result.status)).1) [
        | inl fine ↦ (
          (emitter_step emitting s (emit_terminal result.status)).0,
          rw (complete_run, fine) refl,
          inl (terminal_closes emitting result.status s fine),
        )
        | inr (e, bad) ↦
            let (t, there, closed) =
              fail_run-IsClosed emitting executed
                (emitter_step emitting s (emit_terminal result.status)).0 e in
            (t, rw (complete_run, bad) there, rw (complete_run, bad) closed)
      ]

  -- How a run that returns has completed.
  complete_run_returns :
      (emitting : EmitterEnv) (executed : Bool) (s : Emitter) (o : Result RunResult)
      (result : RunResult)
      → (complete_run views env emitting executed s o).outcome ≡ ok result
      → (o ≡ ok result)
        × ((emitter_step emitting s (emit_terminal result.status)).1 ≡ none)
        × ((complete_run views env emitting executed s o).emitter
            ≡ some (emitter_step emitting s (emit_terminal result.status)).0)
  unfolding complete_run
  complete_run_returns emitting executed s (err e) result h =
      absurd (fail_run_throws emitting executed s e result h)
  complete_run_returns emitting executed s (ok r) result h =
      elim (Option-cases (emitter_step emitting s (emit_terminal r.status)).1) [
        | inl fine ↦
            let same : ok r ≡ ok result = ground arith in
            let alike : r ≡ result = ground arith in
            rw⁻¹ alike (refl, fine, rw (complete_run, fine) refl)
        | inr (e, bad) ↦ absurd (
            fail_run_throws emitting executed (emitter_step emitting s (emit_terminal r.status)).0 e
              result (ground arith))
      ]

  pub run_job-IsClosed :
      (request : Request) (job : Job) (first : Emitter × Option RolekitError)
      → (t : Emitter) × ((run_job views env request job first).emitter ≡ some t)
        × IsClosed (emitting_of views env request job) t (run_job views env request job first)
  unfolding run_job
  run_job-IsClosed request job (s, some e) =
      fail_run-IsClosed (emitting_of views env request job) false s e
  run_job-IsClosed request job (s, none) =
      complete_run-IsClosed (emitting_of views env request job)
        (run_flow views env request.moments job).executed
        (emitter_run (emitting_of views env request job) s
          (map emit_adapter (run_flow views env request.moments job).events))
        (run_flow views env request.moments job).outcome

  -- What a run that returns has done, from its start to its last event.
  pub record IsFinished (request : Request) (kit : Rolekit) (result : RunResult) : Type 0 where
    pub entered : Entered
    pub started : start_run views env request kit ≡ ok entered
    pub compilation : Compilation
    pub started_at : Text
    pub prepared : prepare_run views env request entered ≡ ok (compilation, started_at)
    pub flowed :
        (run_flow views env request.moments
          (job_of views env entered compilation started_at)).outcome
        ≡ ok result
    pub before : Emitter
    pub not_ended : before.terminal_emitted ≡ false
    pub emitted :
        (emitter_step
          (emitting_of views env request (job_of views env entered compilation started_at))
          before
          (emit_terminal result.status)).1
        ≡ none
    pub emitter :
        (run views env request kit).inside.emitter
        ≡ some
            (emitter_step
              (emitting_of views env request (job_of views env entered compilation started_at))
              before
              (emit_terminal result.status)).0

  -- The parts of a run whose emitter is there and that returns.
  run_job_returns :
      (request : Request) (job : Job) (first : Emitter × Option RolekitError) (result : RunResult)
      → first.0.terminal_emitted ≡ false
      → (run_job views env request job first).outcome ≡ ok result
      → (before : Emitter) × (before.terminal_emitted ≡ false)
        × ((run_flow views env request.moments job).outcome ≡ ok result)
        × ((emitter_step (emitting_of views env request job) before (emit_terminal result.status)).1
            ≡ none)
        × ((run_job views env request job first).emitter
            ≡ some
                (emitter_step
                  (emitting_of views env request job)
                  before
                  (emit_terminal result.status)).0)
  unfolding run_job
  run_job_returns request job (s, some e) result still h =
      absurd (fail_run_throws (emitting_of views env request job) false s e result h)
  run_job_returns request job (s, none) result still h =
      let events = (run_flow views env request.moments job).events in
      let before = emitter_run (emitting_of views env request job) s (map emit_adapter events) in
      let (flowed, emitted, emitter) =
        complete_run_returns (emitting_of views env request job)
          (run_flow views env request.moments job).executed before
          (run_flow views env request.moments job).outcome result h in
      (
        before,
        adapters-terminal_emitted (emitting_of views env request job) events s ∙ still,
        flowed,
        emitted,
        emitter,
      )

  first_event :
      (emitting : EmitterEnv)
      → (emitter_step emitting fresh emit_started).0.terminal_emitted ≡ false
  unfolding fresh
  first_event emitting = started-terminal_emitted emitting fresh

  pub entered_IsFinished :
      (request : Request) (kit : Rolekit) (entered : Entered) (result : RunResult)
      → start_run views env request kit ≡ ok entered
      → (run views env request kit).inside.outcome ≡ ok result
      → IsFinished request kit result
  unfolding run run_entered run_prepared
  entered_IsFinished request kit entered result fine h =
      elim (Result-cases (prepare_run views env request entered)) [
        | inr (e, bad) ↦ absurd (ground arith)
        | inl ((c, at), prepared) ↦
            let job = job_of views env entered c at in
            let whole : (run views env request kit).inside
                ≡ run_job views env request job
                    (emitter_step (emitting_of views env request job) fresh emit_started) =
              ground arith in
            let (before, still, flowed, emitted, emitter) =
              run_job_returns request job
                (emitter_step (emitting_of views env request job) fresh emit_started) result
                (first_event (emitting_of views env request job))
                (ap (λ (x : Inside). x.outcome) (sym whole) ∙ h) in
            record {
              entered = entered;
              started = fine;
              compilation = c;
              started_at = at;
              prepared = prepared;
              flowed = flowed;
              before = before;
              not_ended = still;
              emitted = emitted;
              emitter = ap (λ (x : Inside). x.emitter) whole ∙ emitter;
            }
      ]
