-- ===== src/Core/Rolekit/Gate.antt =====
-- Under which conditions the flow of a run calls the adapter's `execute`.
use rolekit.Common.{true, false, not, ◌&&◌, ◌≡◌, refl, sym, inl, inr, none, some, arith, Bool-cases}
use rolekit.Core.Error.{RolekitError, Result, Result-cases, ok, err}
use rolekit.Core.Plan.Data.{Verdict, allowed, denied, Admission, ResolvedPlan}
use rolekit.Core.Plan.Finalize.{FinalizeEnv}
use rolekit.Core.Rolekit.Adapter.{Probe, Views}
use rolekit.Core.Rolekit.Prepare.{admit, take_probe}
use rolekit.Core.Rolekit.Ending.{Moments, Job, is_allowed}
use rolekit.Core.Rolekit.Flow.{
  create_adapter_plan, execute_or_block, flow_planned, flow_admitted, flow_probed, flow_static,
  run_flow,
}

is_allowed-eq : (v : Verdict) → is_allowed v ≡ true → v ≡ allowed
is_allowed-eq allowed h = refl
is_allowed-eq (denied e) h = absurd (ground arith)

module _ (views : Views) (env : FinalizeEnv) (moments : Moments) (job : Job) where
  -- What precedes a call of `execute`.
  pub record IsGated : Type 0 where
    pub static : Admission
    pub static_made : admit views job.adapter job.role job.task job.prepared none ≡ ok static
    pub static_allowed : static.verdict ≡ allowed
    pub not_aborted_before : moments.aborted_before_probe ≡ false
    pub probe : Probe
    pub probe_made : take_probe views job.adapter job.prepared ≡ ok probe
    pub available : probe.available ≡ true
    pub runtime : Admission
    pub runtime_made :
        admit views job.adapter job.role job.task job.prepared (some probe) ≡ ok runtime
    pub runtime_allowed : runtime.verdict ≡ allowed
    pub not_aborted_after : moments.aborted_after_probe ≡ false

  blocks_denied :
      (plan : ResolvedPlan) (probe : Probe) (runtime : Admission) (v : Verdict)
      → (execute_or_block views env moments job plan probe runtime v).executed ≡ true
      → v ≡ allowed
  unfolding execute_or_block
  blocks_denied plan probe runtime allowed h = refl
  blocks_denied plan probe runtime (denied e) h = absurd (ground arith)

  planned_gate :
      (probe : Probe) (runtime : Admission) (plan : Result ResolvedPlan)
      → (flow_planned views env moments job probe runtime plan).executed ≡ true
      → (moments.aborted_after_probe ≡ false) × (runtime.verdict ≡ allowed)
  unfolding flow_planned
  planned_gate probe runtime (err e) h = absurd (ground arith)
  planned_gate probe runtime (ok plan) h = elim (Bool-cases moments.aborted_after_probe) [
    | inl aborted ↦ absurd (ground arith)
    | inr calm ↦ (calm, blocks_denied plan probe runtime runtime.verdict (ground arith))
  ]

  admitted_gate :
      (probe : Probe) (runtime : Admission)
      → (flow_admitted views env moments job probe (ok runtime)).executed ≡ true
      → (moments.aborted_after_probe ≡ false)
        × (runtime.verdict ≡ allowed)
        × (probe.available ≡ true)
  unfolding flow_admitted
  admitted_gate probe runtime h =
      elim (Bool-cases (not probe.available && is_allowed runtime.verdict)) [
        | inl wrong ↦ absurd (ground arith)
        | inr fine ↦
            let (calm, allow) =
              planned_gate probe runtime (create_adapter_plan views env moments job runtime)
                (ground arith) in
            (calm, allow, ground arith)
      ]

  no_admission :
      (probe : Probe) (e : RolekitError)
      → (flow_admitted views env moments job probe (err e)).executed ≡ false
  unfolding flow_admitted
  no_admission probe e = refl

  no_probe : (e : RolekitError) → (flow_probed views env moments job (err e)).executed ≡ false
  unfolding flow_probed
  no_probe e = refl

  static_gate :
      (static : Admission) (v : Verdict)
      → (flow_static views env moments job static v).executed ≡ true
      → (v ≡ allowed)
        × (moments.aborted_before_probe ≡ false)
        × ((flow_probed views env moments job (take_probe views job.adapter job.prepared)).executed
            ≡ true)
  unfolding flow_static
  static_gate static (denied e) h = absurd (ground arith)
  static_gate static allowed h = elim (Bool-cases moments.aborted_before_probe) [
    | inl aborted ↦ absurd (ground arith)
    | inr calm ↦ (refl, calm, ground arith)
  ]

  -- The probe and the runtime admission of a flow that comes to `execute`.
  record IsProbed : Type 0 where
    probe : Probe
    probe_made : take_probe views job.adapter job.prepared ≡ ok probe
    available : probe.available ≡ true
    runtime : Admission
    runtime_made : admit views job.adapter job.role job.task job.prepared (some probe) ≡ ok runtime
    runtime_allowed : runtime.verdict ≡ allowed
    not_aborted_after : moments.aborted_after_probe ≡ false

  admit_gate :
      (probe : Probe)
      → take_probe views job.adapter job.prepared ≡ ok probe
      → (flow_probed views env moments job (ok probe)).executed ≡ true
      → IsProbed
  unfolding flow_probed
  admit_gate probe made h =
      elim (Result-cases (admit views job.adapter job.role job.task job.prepared (some probe))) [
        | inr (e, bad) ↦ absurd (let none_made = no_admission probe e in ground arith)
        | inl (runtime, fine) ↦
            let (calm, allow, there) = admitted_gate probe runtime (ground arith) in
            record {
              probe = probe;
              probe_made = made;
              available = there;
              runtime = runtime;
              runtime_made = fine;
              runtime_allowed = allow;
              not_aborted_after = calm;
            }
      ]

  probed_gate :
      (flow_probed views env moments job (take_probe views job.adapter job.prepared)).executed
        ≡ true
      → IsProbed
  probed_gate h = elim (Result-cases (take_probe views job.adapter job.prepared)) [
    | inr (e, bad) ↦ absurd (let none_made = no_probe e in ground arith)
    | inl (probe, fine) ↦ admit_gate probe fine (rw (sym fine) h)
  ]

  -- An adapter's `execute` is called only after a static admission that allows, a probe that says
  -- available, and a runtime admission with that probe that allows, and only where the signal was aborted
  -- neither before the probe nor after it.
  pub run_flow-IsGated : (run_flow views env moments job).executed ≡ true → IsGated
  unfolding run_flow
  run_flow-IsGated h =
      elim (Result-cases (admit views job.adapter job.role job.task job.prepared none)) [
        | inr (e, bad) ↦ absurd (ground arith)
        | inl (static, fine) ↦
            let (allow, calm, on) = static_gate static static.verdict (ground arith) in
            let p = probed_gate on in
            record {
              static = static;
              static_made = fine;
              static_allowed = allow;
              not_aborted_before = calm;
              probe = p.probe;
              probe_made = p.probe_made;
              available = p.available;
              runtime = p.runtime;
              runtime_made = p.runtime_made;
              runtime_allowed = p.runtime_allowed;
              not_aborted_after = p.not_aborted_after;
            }
      ]
