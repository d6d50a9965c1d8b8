-- ===== src/Core/Rolekit/Achieved.antt =====
-- What the result of a run says of the run.
use rolekit.Common.{false, ◌≡◌, refl, sym, ap, ◌∙◌, inl, inr, some, arith}
use rolekit.Core.Json.Data.{Json}
use rolekit.Core.Error.{ok}
use rolekit.Core.Redact.JsonValue.{redact_sensitive_json_value}
use rolekit.Core.Response.Data.{completed}
use rolekit.Core.Response.Validate.{Snapshot}
use rolekit.Core.Plan.Receipt.{RunResult}
use rolekit.Core.Plan.Finalize.{FinalizeEnv}
use rolekit.Core.Plan.Final.Status.{finalize-IsEarned}
use rolekit.Core.Options.Prepared.{Copied, copied, not_portable}
use rolekit.Core.Rolekit.Adapter.{returned, Answer, Views}
use rolekit.Core.Plan.Data.{Admission}
use rolekit.Core.Rolekit.Prepare.{admit}
use rolekit.Core.Rolekit.Ending.{
  Moments, Job, EarlyEnd, ends_failed, ends_blocked, ends_cancelled, early_status, Ending,
}
use rolekit.Core.Rolekit.Flow.{terminal_response, terminal_snapshot, answer_snapshot, run_flow}
use rolekit.Core.Rolekit.Gate.{IsGated, run_flow-IsGated}
use rolekit.Core.Rolekit.Settle.{IsRuntime, run_flow-Settles}

early_not_completed : (how : EarlyEnd) → early_status how ≡ completed → ⊥
unfolding early_status
early_not_completed ends_failed h = ground arith
early_not_completed ends_blocked h = ground arith
early_not_completed ends_cancelled h = ground arith

module _ (views : Views) (env : FinalizeEnv) (moments : Moments) (job : Job) where
  -- What a completed run rests on.
  pub record IsAchieved (result : RunResult) : Type 0 where
    pub gate : IsGated views env moments job
    pub not_aborted : moments.aborted_after_execute ≡ false
    pub answer : Answer
    pub answered :
        (job.adapter.execute job.role job.task job.prepared gate.runtime).1 ≡ returned answer
    pub json : Json
    pub portable : answer.value ≡ copied json
    pub reported :
        (views.response_of
          (redact_sensitive_json_value json job.prepared.sensitive_values)).response.status
        ≡ completed
    pub output :
        result.output
        ≡ (views.response_of
            (redact_sensitive_json_value json job.prepared.sensitive_values)).response.output

  terminal_not_completed :
      (ending : Ending)
      → (terminal_snapshot views env moments job ending).response.status ≡ completed
      → ⊥
  unfolding terminal_snapshot terminal_response
  terminal_not_completed ending h = early_not_completed ending.how h

  answer_copied :
      (answer : Answer) (s : Snapshot)
      → answer_snapshot views env moments job answer ≡ some s
      → (json : Json) × (answer.value ≡ copied json)
        × (views.response_of (redact_sensitive_json_value json job.prepared.sensitive_values) ≡ s)
  answer_copied answer s h = from_value answer.value refl
    where
      from_value :
          (v : Copied)
          → answer.value ≡ v
          → (json : Json) × (answer.value ≡ copied json)
            × (views.response_of (redact_sensitive_json_value json job.prepared.sensitive_values)
                ≡ s)
      from_value (copied j) same = (j, same, ground arith)
      from_value (not_portable m) same = absurd (ground arith)

  -- The runtime admission is determined.
  same_runtime :
      (runtime : Admission)
      → IsRuntime views env moments job runtime
      → (g : IsGated views env moments job) → runtime ≡ g.runtime
  same_runtime runtime (probe, probed, made) g =
      let same : ok probe ≡ ok g.probe = sym probed ∙ g.probe_made in
      let alike : probe ≡ g.probe = ground arith in
      let both : ok runtime ≡ ok g.runtime =
        sym made
        ∙ (ap (λ p. admit views job.adapter job.role job.task job.prepared (some p)) alike
            ∙ g.runtime_made) in
      ground arith

  -- A run completes only if its adapter's `execute` was called, after every gate before it, and resolved
  -- with no abort meanwhile to JSON data that is read, redacted, as a completed response; the result's
  -- output is that response's.
  pub run_flow-IsAchieved :
      (result : RunResult)
      → (run_flow views env moments job).outcome ≡ ok result
      → result.status ≡ completed
      → IsAchieved result
  run_flow-IsAchieved result h c =
      let s = run_flow-Settles views env moments job result h in
      let earned = finalize-IsEarned env s.plan s.receipt result s.finalized c in
      elim s.origin [
        | inl made_up ↦
            let same : some (terminal_snapshot views env moments job made_up.ending)
                ≡ some earned.snapshot =
              sym made_up.shown ∙ earned.shown in
            absurd (terminal_not_completed made_up.ending (ground arith))
        | inr a ↦
            let (json, portable, same) =
              answer_copied a.answer earned.snapshot (sym a.shown ∙ earned.shown) in
            let gate = run_flow-IsGated views env moments job a.called in
            let runtime = same_runtime a.runtime a.runtime_made gate in
            record {
              gate = gate;
              not_aborted = a.not_aborted;
              answer = a.answer;
              answered = rw⁻¹ runtime a.answered;
              json = json;
              portable = portable;
              reported = rw same earned.reported;
              output = rw same earned.output;
            }
      ]
