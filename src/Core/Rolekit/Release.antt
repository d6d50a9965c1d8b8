-- ===== src/Core/Rolekit/Release.antt =====
-- The run ids that are active when a run is over.
use rolekit.Common.{
  Bool, true, false, ◌||◌, ◌≡◌, refl, ap, ◌∙◌, ◌⊎◌, inl, inr, List, if◌then◌else◌, arith,
}
use rolekit.Common.Text.{Text, text_eq, has}
use rolekit.Core.Error.{RolekitError, Result-cases, ok, err}
use rolekit.Core.Plan.Finalize.{FinalizeEnv}
use rolekit.Core.Rolekit.Adapter.{Views}
use rolekit.Core.Rolekit.Registry.{Rolekit, enter_run, leave_run, Change, changes}
use rolekit.Core.Rolekit.Distinct.{enter_run_lem}
use rolekit.Core.Rolekit.Active.{is_running, has-push, has-filter, changes_from_active}
use rolekit.Core.Rolekit.Start.{start_run-IsStarted}
use rolekit.Core.Rolekit.Run.{Request, Entered, start_run, run_entered, run}

module _ (views : Views) (env : FinalizeEnv) where
  -- A run that starts has one change before those meanwhile and one after them.
  entered_active :
      (request : Request) (kit : Rolekit) (entered : Entered) (id : Text)
      → enter_run entered.options.run_id kit ≡ ok entered.kit
      → has (run_entered views env request kit (ok entered)).kit.active_run_ids id ≡ (
          if text_eq entered.options.run_id id
          then false
          else is_running id (has kit.active_run_ids id) request.meanwhile)
  unfolding run_entered leave_run
  entered_active request kit entered id h =
      let (_, same) = enter_run_lem entered.options.run_id kit entered.kit h in
      let now = changes_from_active env.plans entered.kit request.meanwhile id in
      let before =
        ap (λ (k : Rolekit). has k.active_run_ids id) same
        ∙ has-push kit.active_run_ids entered.options.run_id id in
      has-filter (changes env.plans entered.kit request.meanwhile).active_run_ids
        entered.options.run_id id
      ∙ choose (text_eq entered.options.run_id id) (has kit.active_run_ids id) request.meanwhile id
          (now ∙ ap (λ b. is_running id b request.meanwhile) before)
    where
      choose :
          {x : Bool} (here was : Bool) (cs : List Change) (id : Text)
          → x ≡ is_running id (was || here) cs
          → (if here then false else x) ≡ (if here then false else is_running id was cs)
      choose true was cs id p = refl
      choose false was cs id p = p ∙ ap (λ b. is_running id b cs) (ground arith)

  run_refused :
      (request : Request) (kit : Rolekit) (e : RolekitError)
      → start_run views env request kit ≡ err e
      → ((run views env request kit).kit ≡ kit)
        × ((run views env request kit).inside.outcome ≡ err e)
  unfolding run run_entered
  run_refused request kit e bad = (rw (run, bad, run_entered) refl, rw (run, bad, run_entered) refl)

  -- A run that is refused at its start leaves the instance as it was and throws. A run that starts, however
  -- it ends: when it is over its own id is not active, and any other id is active exactly if it was active
  -- before or became so meanwhile, and did not end since.
  pub run_released :
      (request : Request) (kit : Rolekit) (id : Text)
      → ((e : RolekitError) × (start_run views env request kit ≡ err e)
          × ((run views env request kit).kit ≡ kit)
          × ((run views env request kit).inside.outcome ≡ err e))
        ⊎ ((entered : Entered) × (start_run views env request kit ≡ ok entered)
            × (has (run views env request kit).kit.active_run_ids id ≡ (
                if text_eq entered.options.run_id id
                then false
                else is_running id (has kit.active_run_ids id) request.meanwhile)))
  unfolding run
  run_released request kit id = elim (Result-cases (start_run views env request kit)) [
    | inr (e, bad) ↦
        let (same, throws) = run_refused request kit e bad in inl (e, bad, same, throws)
    | inl (entered, fine) ↦ inr (
      entered,
      fine,
      rw (run, fine)
          (entered_active request kit entered id
            (start_run-IsStarted views env request kit entered fine).enters),
    )
  ]
