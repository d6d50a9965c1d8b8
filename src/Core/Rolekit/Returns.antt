-- ===== src/Core/Rolekit/Returns.antt =====
-- What `run` of src/core/rolekit.ts returns and throws, from the outside.
use rolekit.Common.{
  true, ◌≡◌, refl, sym, ap, ◌∙◌, ◌⊎◌, inl, inr, Option, some, List, [], ◌∷◌, ◌++◌, arith,
}
use rolekit.Common.Thrown.{Thrown}
use rolekit.Core.Error.{RolekitError, Result-cases, ok, err}
use rolekit.Core.Response.Data.{completed, failed}
use rolekit.Core.Plan.Receipt.{RunResult}
use rolekit.Core.Plan.Finalize.{FinalizeEnv}
use rolekit.Core.Events.Emitter.{
  terminal, RunEvent, Emitter, fresh, emit_started, emit_terminal, run_event, emitter_step,
}
use rolekit.Core.Events.Last.{terminal_closes, terminal-delivered}
use rolekit.Core.Rolekit.Adapter.{Views}
use rolekit.Core.Rolekit.Registry.{Rolekit}
use rolekit.Core.Rolekit.Ending.{Job}
use rolekit.Core.Rolekit.Achieved.{IsAchieved, run_flow-IsAchieved}
use rolekit.Core.Rolekit.Own.{IsOwn, run_flow-IsOwn}
use rolekit.Core.Rolekit.Run.{
  Request, Entered, Inside, start_run, emitting_of, job_of, run_job, prepare_run, run_prepared,
  run_entered, run,
}
use rolekit.Core.Rolekit.Finish.{run_job-IsClosed, IsFinished, entered_IsFinished}

module _ (views : Views) (env : FinalizeEnv) where
  run-IsFinished :
      (request : Request) (kit : Rolekit) (result : RunResult)
      → (run views env request kit).inside.outcome ≡ ok result
      → IsFinished views env request kit result
  unfolding run run_entered
  run-IsFinished request kit result h = elim (Result-cases (start_run views env request kit)) [
    | inr (e, bad) ↦ absurd (ground arith)
    | inl (entered, fine) ↦ entered_IsFinished views env request kit entered result fine h
  ]

  -- The part of a run that its flow works on.
  abbrev pub job_in :
      (request : Request) (kit : Rolekit) (result : RunResult)
      → IsFinished views env request kit result
      → Job
  job_in request kit result f = job_of views env f.entered f.compilation f.started_at

  -- A run returns a completed result only if it started and made its preparations, its adapter's `execute`
  -- was called after every gate before it, and resolved with no abort meanwhile to JSON data that is read,
  -- redacted, as a completed response; the result's output is that response's, and the result names the
  -- run, the task, the role and the executor that the run started with.
  pub run_completed :
      (request : Request) (kit : Rolekit) (result : RunResult)
      → (run views env request kit).inside.outcome ≡ ok result
      → result.status ≡ completed
      → (f : IsFinished views env request kit result) × IsAchieved views env request.moments
          (job_in request kit result f)
          result
        × IsOwn (job_in request kit result f) result
  run_completed request kit result h c =
      let f = run-IsFinished request kit result h in
      (
        f,
        run_flow-IsAchieved views env request.moments (job_in request kit result f) result f.flowed
            c,
        run_flow-IsOwn views env request.moments (job_in request kit result f) result f.flowed,
      )

  -- A run with a callback that returns a result has handed it a terminal event as the last one, with the
  -- result's status and run id, and has noted that a terminal event was emitted.
  pub run_told :
      (request : Request) (kit : Rolekit) (result : RunResult) (callback : RunEvent → Option Thrown)
      → (run views env request kit).inside.outcome ≡ ok result
      → request.emitting.on_event ≡ some callback
      → (s : Emitter) × (earlier : List RunEvent) × (last : RunEvent) × ((run views env request
            kit).inside.emitter
          ≡ some s)
        × (s.terminal_emitted ≡ true)
        × (s.delivered ≡ earlier ++ (last ∷ []))
        × (last.event ≡ terminal result.status)
        × (last.run_id ≡ result.run_id)
  run_told request kit result callback h there =
      let f = run-IsFinished request kit result h in
      let emitting = emitting_of views env request (job_in request kit result f) in
      let own =
        run_flow-IsOwn views env request.moments (job_in request kit result f) result f.flowed in
      (
        (emitter_step emitting f.before (emit_terminal result.status)).0,
        f.before.delivered,
        run_event emitting (terminal result.status) _,
        f.emitter,
        terminal_closes emitting result.status f.before f.emitted,
        terminal-delivered emitting result.status f.before callback f.not_ended there f.emitted,
        refl,
        sym own.run,
      )

  prepared_closed :
      (request : Request) (entered : Entered) (s : Emitter)
      → (run_prepared views env request entered (prepare_run views env request entered)).emitter
        ≡ some s
      → (s.terminal_emitted ≡ true)
        ⊎ ((job : Job) × (before : Emitter) × (e : RolekitError) × ((run_prepared views env request
                entered
                (prepare_run views env request entered)).outcome
              ≡ err e)
            × (emitter_step (emitting_of views env request job) before (emit_terminal failed)
                ≡ (s, some e)))
  unfolding run_prepared
  prepared_closed request entered s h =
      elim (Result-cases (prepare_run views env request entered)) [
        | inr (e, bad) ↦ absurd (ground arith)
        | inl ((c, at), fine) ↦
            let job = job_of views env entered c at in
            let first = emitter_step (emitting_of views env request job) fresh emit_started in
            let whole : run_prepared views env request entered
                  (prepare_run views env request entered)
                ≡ run_job views env request job first =
              ground arith in
            let (t, there, closed) = run_job-IsClosed views env request job first in
            let same : some t ≡ some s =
              sym there ∙ (sym (ap (λ (x : Inside). x.emitter) whole) ∙ h) in
            let alike : t ≡ s = ground arith in
            rw (whole, sym alike)
              (elim closed [
                | inl over ↦ inl over
                | inr (before, e, thrown, refused) ↦ inr (job, before, e, thrown, refused)
              ])
      ]

  -- When a run that has made an emitter is over, it has emitted a terminal event, or else the run throws the
  -- very error that refused the terminal event `failed`.
  pub run_closed :
      (request : Request) (kit : Rolekit) (s : Emitter)
      → (run views env request kit).inside.emitter ≡ some s
      → (s.terminal_emitted ≡ true)
        ⊎ ((job : Job) × (before : Emitter) × (e : RolekitError) × ((run views env request
                kit).inside.outcome
              ≡ err e)
            × (emitter_step (emitting_of views env request job) before (emit_terminal failed)
                ≡ (s, some e)))
  unfolding run run_entered
  run_closed request kit s h = elim (Result-cases (start_run views env request kit)) [
    | inr (e, bad) ↦ absurd (ground arith)
    | inl (entered, fine) ↦
        let whole : (run views env request kit).inside
            ≡ run_prepared views env request entered (prepare_run views env request entered) =
          ground arith in
        rw whole
          (prepared_closed request entered s (ap (λ (x : Inside). x.emitter) (sym whole) ∙ h))
  ]
