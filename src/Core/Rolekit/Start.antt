-- ===== src/Core/Rolekit/Start.antt =====
-- A run that has started, taken apart.
use rolekit.Common.{◌≡◌, inl, inr, Option, none, some, arith}
use rolekit.Common.Text.{Text}
use rolekit.Core.Error.{Result-cases, ok}
use rolekit.Core.Plan.Finalize.{FinalizeEnv}
use rolekit.Core.Rolekit.Adapter.{Attempt, Views}
use rolekit.Core.Rolekit.Registry.{Rolekit, registered_adapter, resolve_task, enter_run}
use rolekit.Core.Rolekit.Prepare.{RunOptions, run_id_of, executor_of, Captured, capture_run_options}
use rolekit.Core.Rolekit.Run.{Request, Entered, start_run}

-- The options that are captured are those that were given.
executor_of_given : (given : Option Text) (id : Text) → executor_of given ≡ ok id → given ≡ some id
unfolding executor_of
executor_of_given none id h = absurd (ground arith)
executor_of_given (some text) id h = ground arith

pub capture_run_options_given :
    (options : RunOptions) (created : Attempt (Option Text)) (c : Captured)
    → capture_run_options options created ≡ ok c
    → (options.executor_id ≡ some c.executor_id)
      × (c.adapter_options ≡ options.adapter_options)
      × (c.public_option_context ≡ options.public_option_context)
unfolding capture_run_options
capture_run_options_given options created c h =
    elim (Result-cases (executor_of options.executor_id)) [
      | inr (e, bad) ↦ absurd (ground arith)
      | inl (id, fine) ↦ elim (Result-cases (run_id_of options.run_id created)) [
        | inr (e, bad) ↦ absurd (ground arith)
        | inl (run_id, there) ↦
            let given = executor_of_given options.executor_id id fine in
            (ground arith, ground arith, ground arith)
      ]
    ]

module _ (views : Views) (env : FinalizeEnv) where
  pub record IsStarted (request : Request) (kit : Rolekit) (entered : Entered) : Type 0 where
    pub captured : capture_run_options request.options request.created_id ≡ ok entered.options
    pub resolved :
        resolve_task env.plans env.check_output request.task kit ≡ ok (entered.task, entered.role)
    pub registered : registered_adapter entered.options.executor_id kit ≡ ok entered.adapter
    pub enters : enter_run entered.options.run_id kit ≡ ok entered.kit

  pub start_run-IsStarted :
      (request : Request) (kit : Rolekit) (entered : Entered)
      → start_run views env request kit ≡ ok entered
      → IsStarted request kit entered
  unfolding start_run
  start_run-IsStarted request kit entered h =
      elim (Result-cases (capture_run_options request.options request.created_id)) [
        | inr (e, bad) ↦ absurd (ground arith)
        | inl (options, fine) ↦
            elim (Result-cases (resolve_task env.plans env.check_output request.task kit)) [
              | inr (e, bad) ↦ absurd (ground arith)
              | inl ((task, role), there) ↦
                  elim (Result-cases (registered_adapter options.executor_id kit)) [
                    | inr (e, bad) ↦ absurd (ground arith)
                    | inl (adapter, known) ↦ elim (Result-cases (enter_run options.run_id kit)) [
                      | inr (e, bad) ↦ absurd (ground arith)
                      | inl (next, entering) ↦
                          let same : record {
                            options = options;
                            task = task;
                            role = role;
                            adapter = adapter;
                            kit = next;
                          }
                              ≡ entered =
                            ground arith in
                          rw⁻¹ same (record {
                            captured = fine;
                            resolved = there;
                            registered = known;
                            enters = entering;
                          })
                    ]
                  ]
            ]
      ]
