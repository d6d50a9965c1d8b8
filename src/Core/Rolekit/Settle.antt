-- ===== src/Core/Rolekit/Settle.antt =====
-- Where the result of a run comes from.
use rolekit.Common.{
  Bool, true, false, not, ◌&&◌, ◌≡◌, refl, sym, ap, ◌∙◌, ◌⊎◌, inl, inr, Option, none, some, arith,
  Bool-cases, if◌then◌else◌,
}
use rolekit.Common.Text.{codes}
use rolekit.Core.Error.{RolekitError, Result, Result-cases, ok, err}
use rolekit.Core.Plan.Data.{Verdict, allowed, denied, Admission, ResolvedPlan}
use rolekit.Core.Plan.Receipt.{ExecutionReceipt, RunResult}
use rolekit.Core.Plan.Finalize.{FinalizeEnv, finalize_execution}
use rolekit.Core.Rolekit.Adapter.{Attempt, threw, returned, Probe, Answer, Views}
use rolekit.Core.Rolekit.Prepare.{admit, take_probe}
use rolekit.Core.Rolekit.Ending.{
  Moments, Job, Flow, stop, is_allowed, Ending, blocks, aborted_early, aborted_probing,
  aborted_executing, failure_ending, nothing_shown,
}
use rolekit.Core.Rolekit.Flow.{
  create_adapter_plan, make_receipt, answer_shown, terminal_snapshot, finalize_terminal,
  stopped_before_probe, answer_snapshot, execution_answered, execution_outcome, execute_or_block,
  flow_planned, flow_admitted, flow_probed, flow_static, run_flow,
}

module _ (views : Views) (env : FinalizeEnv) (moments : Moments) (job : Job) where
  -- The admission that an adapter gives with its probe.
  abbrev pub IsRuntime : Admission → Type 0
  IsRuntime runtime =
      (probe : Probe) × (take_probe views job.adapter job.prepared ≡ ok probe)
      × (admit views job.adapter job.role job.task job.prepared (some probe) ≡ ok runtime)

  -- The receipt holds what `execute` resolved to, and the run was not aborted meanwhile.
  pub record IsAnswered (executed : Bool) (receipt : ExecutionReceipt) : Type 0 where
    pub called : executed ≡ true
    pub not_aborted : moments.aborted_after_execute ≡ false
    pub runtime : Admission
    pub runtime_made : IsRuntime runtime
    pub answer : Answer
    pub answered : (job.adapter.execute job.role job.task job.prepared runtime).1 ≡ returned answer
    pub shown : receipt.response ≡ answer_snapshot views env moments job answer

  -- The receipt holds a response that the run made up.
  pub record IsMadeUp (receipt : ExecutionReceipt) : Type 0 where
    pub ending : Ending
    pub shown : receipt.response ≡ some (terminal_snapshot views env moments job ending)

  -- A result is finalized from a receipt under a plan that the run has made.
  pub record IsSettled (executed : Bool) (result : RunResult) : Type 0 where
    pub admission : Admission
    pub plan : ResolvedPlan
    pub planned : create_adapter_plan views env moments job admission ≡ ok plan
    pub receipt : ExecutionReceipt
    pub finalized : finalize_execution env plan receipt ≡ ok result
    pub origin : IsMadeUp receipt ⊎ IsAnswered executed receipt

  finalize_terminal-IsSettled :
      (executed : Bool) (admission : Admission) (plan : ResolvedPlan) (probe : Option Probe)
      (ending : Ending) (result : RunResult)
      → create_adapter_plan views env moments job admission ≡ ok plan
      → finalize_terminal views env moments job plan probe ending ≡ ok result
      → IsSettled executed result
  unfolding finalize_terminal make_receipt
  finalize_terminal-IsSettled executed admission plan probe ending result made h =
      elim (Result-cases moments.completed_at) [
        | inr (e, bad) ↦ absurd (ground arith)
        | inl (completed_at, fine) ↦ record {
          admission = admission;
          plan = plan;
          planned = made;
          receipt =
              make_receipt views env moments job plan probe nothing_shown
                (some (terminal_snapshot views env moments job ending)) completed_at;
          finalized = ground arith;
          origin = inl (record { ending = ending; shown = refl });
        }
      ]

  stopped-IsSettled :
      (executed : Bool) (static : Admission) (ending : Ending) (result : RunResult)
      → stopped_before_probe views env moments job static ending ≡ ok result
      → IsSettled executed result
  unfolding stopped_before_probe
  stopped-IsSettled executed static ending result h =
      elim (Result-cases (create_adapter_plan views env moments job static)) [
        | inr (e, bad) ↦ absurd (ground arith)
        | inl (plan, made) ↦
            finalize_terminal-IsSettled executed static plan none ending result made (ground arith)
      ]

  execution_answered-IsSettled :
      (runtime : Admission) (plan : ResolvedPlan) (probe : Probe) (answer : Answer)
      (result : RunResult)
      → (job.adapter.execute job.role job.task job.prepared runtime).1 ≡ returned answer
      → IsRuntime runtime
      → create_adapter_plan views env moments job runtime ≡ ok plan
      → execution_answered views env moments job plan probe moments.aborted_after_execute answer
        ≡ ok result
      → IsSettled true result
  unfolding execution_answered make_receipt
  execution_answered-IsSettled runtime plan probe answer result answered from made h =
      elim (Bool-cases moments.aborted_after_execute) [
        | inl aborted ↦
            finalize_terminal-IsSettled true runtime plan (some probe) aborted_executing result made
              (ground arith)
        | inr calm ↦ elim (Result-cases moments.completed_at) [
          | inr (e, bad) ↦ absurd (ground arith)
          | inl (completed_at, fine) ↦ record {
            admission = runtime;
            plan = plan;
            planned = made;
            receipt =
                make_receipt views env moments job plan (some probe)
                  (answer_shown views env moments job answer)
                  (answer_snapshot views env moments job answer) completed_at;
            finalized = ground arith;
            origin = inr (record {
              called = refl;
              not_aborted = calm;
              runtime = runtime;
              runtime_made = from;
              answer = answer;
              answered = answered;
              shown = refl;
            });
          }
        ]
      ]

  execution_outcome-IsSettled :
      (runtime : Admission) (plan : ResolvedPlan) (probe : Probe) (attempt : Attempt Answer)
      (result : RunResult)
      → (job.adapter.execute job.role job.task job.prepared runtime).1 ≡ attempt
      → IsRuntime runtime
      → create_adapter_plan views env moments job runtime ≡ ok plan
      → execution_outcome views env moments job plan probe attempt ≡ ok result
      → IsSettled true result
  unfolding execution_outcome
  execution_outcome-IsSettled runtime plan probe (threw reason) result answered from made h =
      finalize_terminal-IsSettled true runtime plan (some probe)
        (failure_ending job.descriptor.id job.prepared.sensitive_values
          moments.aborted_after_execute reason)
        result made h
  execution_outcome-IsSettled runtime plan probe (returned answer) result answered from made h =
      execution_answered-IsSettled runtime plan probe answer result answered from made h

  -- The result of a flow, if it has one, is settled.
  abbrev Settles : Flow → Type 0
  Settles f = (result : RunResult) → f.outcome ≡ ok result → IsSettled f.executed result

  thrown-Settles : (e : RolekitError) → Settles (stop (err e))
  thrown-Settles e result h = absurd (ground arith)

  if-Settles : (b : Bool) (f g : Flow) → Settles f → Settles g → Settles (if b then f else g)
  if-Settles true f g p q = p
  if-Settles false f g p q = q

  execute_or_block-Settles :
      (plan : ResolvedPlan) (probe : Probe) (runtime : Admission) (v : Verdict)
      → IsRuntime runtime
      → create_adapter_plan views env moments job runtime ≡ ok plan
      → Settles (execute_or_block views env moments job plan probe runtime v)
  unfolding execute_or_block
  execute_or_block-Settles plan probe runtime (denied e) from made result h =
      finalize_terminal-IsSettled false runtime plan (some probe)
        (blocks job.descriptor.id (codes "runtime admission.") e) result made h
  execute_or_block-Settles plan probe runtime allowed from made result h =
      execution_outcome-IsSettled runtime plan probe
        (job.adapter.execute job.role job.task job.prepared runtime).1 result refl from made h

  flow_planned-Settles :
      (probe : Probe) (runtime : Admission) (plan : Result ResolvedPlan)
      → IsRuntime runtime
      → create_adapter_plan views env moments job runtime ≡ plan
      → Settles (flow_planned views env moments job probe runtime plan)
  unfolding flow_planned
  flow_planned-Settles probe runtime (err e) from made = thrown-Settles e
  flow_planned-Settles probe runtime (ok plan) from made =
      if-Settles moments.aborted_after_probe _ _
        (λ result h.
          finalize_terminal-IsSettled false runtime plan (some probe) aborted_probing result made h)
        (execute_or_block-Settles plan probe runtime runtime.verdict from made)

  flow_admitted-Settles :
      (probe : Probe) (runtime : Result Admission)
      → take_probe views job.adapter job.prepared ≡ ok probe
      → admit views job.adapter job.role job.task job.prepared (some probe) ≡ runtime
      → Settles (flow_admitted views env moments job probe runtime)
  unfolding flow_admitted
  flow_admitted-Settles probe (err e) probed admitted = thrown-Settles e
  flow_admitted-Settles probe (ok runtime) probed admitted =
      if-Settles (not probe.available && is_allowed runtime.verdict) _ _ (thrown-Settles _) (
        flow_planned-Settles probe runtime (create_adapter_plan views env moments job runtime)
          (probe, probed, admitted) refl)

  flow_probed-Settles :
      (probe : Result Probe)
      → take_probe views job.adapter job.prepared ≡ probe
      → Settles (flow_probed views env moments job probe)
  unfolding flow_probed
  flow_probed-Settles (err e) probed = thrown-Settles e
  flow_probed-Settles (ok probe) probed =
      flow_admitted-Settles probe
        (admit views job.adapter job.role job.task job.prepared (some probe)) probed refl

  flow_static-Settles :
      (static : Admission) (v : Verdict) → Settles (flow_static views env moments job static v)
  unfolding flow_static
  flow_static-Settles static (denied e) = λ result h.
      stopped-IsSettled false static (blocks job.descriptor.id (codes "static admission.") e) result
        h
  flow_static-Settles static allowed =
      if-Settles moments.aborted_before_probe _ _ (stopped-IsSettled false static aborted_early)
        (flow_probed-Settles (take_probe views job.adapter job.prepared) refl)

  pub run_flow-Settles : Settles (run_flow views env moments job)
  unfolding run_flow
  run_flow-Settles result h =
      elim (Result-cases (admit views job.adapter job.role job.task job.prepared none)) [
        | inr (e, bad) ↦ absurd (ground arith)
        | inl (static, fine) ↦
            let f : run_flow views env moments job
                ≡ flow_static views env moments job static static.verdict =
              ground arith in
            rw f (
              flow_static-Settles static static.verdict result
                (ap (λ (x : Flow). x.outcome) (sym f) ∙ h))
      ]
