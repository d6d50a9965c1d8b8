-- ===== src/Core/Rolekit/Forecast.antt =====
-- What `compile` of src/core/rolekit.ts tells of a run with the same task, executor and options.
use rolekit.Common.{true, ◌≡◌, refl, sym, ap, ◌∙◌, inl, inr, Option, none, some, arith}
use rolekit.Common.Text.{Text}
use rolekit.Core.Json.Data.{Json}
use rolekit.Core.Error.{Result-cases, ok}
use rolekit.Core.Plan.Data.{RoleSpec, TaskPacket, Admission, allowed}
use rolekit.Core.Plan.Finalize.{FinalizeEnv}
use rolekit.Core.Rolekit.Adapter.{Adapter, Views}
use rolekit.Core.Rolekit.Registry.{Rolekit, registered_adapter, resolve_task}
use rolekit.Core.Rolekit.Prepare.{Compilation, prepare_adapter, admit}
use rolekit.Core.Rolekit.Run.{Request, Entered, prepare_run, run}
use rolekit.Core.Rolekit.Start.{capture_run_options_given, start_run-IsStarted}
use rolekit.Core.Rolekit.Compile.{
  Compiled, prepare_adapter_for_task, compile, IsExecuted, run-IsExecuted,
}

module _ (views : Views) (env : FinalizeEnv) where
  prepare_run-compilation :
      (request : Request) (entered : Entered) (c : Compilation) (at : Text)
      → prepare_run views env request entered ≡ ok (c, at)
      → prepare_adapter views entered.adapter entered.options.adapter_options
          entered.options.public_option_context
        ≡ ok c
  unfolding prepare_run
  prepare_run-compilation request entered c at h =
      elim (Result-cases (
        prepare_adapter views entered.adapter entered.options.adapter_options
          entered.options.public_option_context)) [
            | inr (e, bad) ↦ absurd (ground arith)
            | inl (d, fine) ↦ elim (Result-cases request.moments.started_at) [
              | inr (e, bad) ↦ absurd (ground arith)
              | inl (t, there) ↦ ground arith
            ]
          ]

  -- The admission of a compilation, from its parts.
  prepared_task :
      (adapter : Adapter) (role : RoleSpec) (task : TaskPacket) (options : Json)
      (context : Option Json) (c : Compilation) (static : Admission)
      → prepare_adapter views adapter options context ≡ ok c
      → admit views adapter role task c.prepared none ≡ ok static
      → prepare_adapter_for_task views env adapter role task options context ≡ ok (c, static)
  unfolding prepare_adapter_for_task
  prepared_task adapter role task options context c static made admitted = rw (made, admitted) refl

  compile_of_parts :
      (task : TaskPacket) (role : RoleSpec) (adapter : Adapter) (executor_id : Text)
      (options : Json) (context : Option Json) (kit : Rolekit) (c : Compilation)
      (static : Admission)
      → resolve_task env.plans env.check_output task kit ≡ ok (task, role)
      → registered_adapter executor_id kit ≡ ok adapter
      → prepare_adapter_for_task views env adapter role task options context ≡ ok (c, static)
      → compile views env task executor_id options context kit
        ≡ ok (record {
          descriptor = c.descriptor;
          admission = static;
          public_options = static.effective_public_options;
        })
  unfolding compile
  compile_of_parts task role adapter executor_id options context kit c static resolved registered
        prepared =
      rw (resolved, registered, prepared) refl

  resolve_task_same :
      (task task' : TaskPacket) (role : RoleSpec) (kit : Rolekit)
      → resolve_task env.plans env.check_output task kit ≡ ok (task', role)
      → task' ≡ task
  unfolding resolve_task
  resolve_task_same task task' role kit h = ground arith

  -- What compilation says where a run executes.
  compile_of_executed :
      (request : Request) (kit : Rolekit) (x : IsExecuted views env request kit)
      → compile views env request.task x.entered.options.executor_id request.options.adapter_options
          request.options.public_option_context kit
        ≡ ok (record {
          descriptor = x.compilation.descriptor;
          admission = x.gate.static;
          public_options = x.gate.static.effective_public_options;
        })
  compile_of_executed request kit x =
      let s = start_run-IsStarted views env request kit x.entered x.started in
      let (_, options, context) =
        capture_run_options_given request.options request.created_id x.entered.options s.captured in
      let task = resolve_task_same request.task x.entered.task x.entered.role kit s.resolved in
      let made = prepare_run-compilation request x.entered x.compilation x.started_at x.prepared in
      compile_of_parts request.task x.entered.role x.entered.adapter x.entered.options.executor_id
        request.options.adapter_options request.options.public_option_context kit x.compilation
        x.gate.static (s.resolved ∙ ap (λ t. ok (t, x.entered.role)) task) s.registered
        (prepared_task x.entered.adapter x.entered.role request.task request.options.adapter_options
          request.options.public_option_context x.compilation x.gate.static
          (ap (λ o. prepare_adapter views x.entered.adapter o request.options.public_option_context)
              (sym options)
            ∙ (ap (prepare_adapter views x.entered.adapter x.entered.options.adapter_options)
                  (sym context)
                ∙ made))
          (ap (λ t. admit views x.entered.adapter x.entered.role t x.compilation.prepared none)
              (sym task)
            ∙ x.gate.static_made))

  -- If a run calls the adapter's `execute`, then `compile` of the same task, executor, options and public
  -- option context on the same instance returns, and says that the admission allows.
  pub compile_allows :
      (request : Request) (kit : Rolekit)
      → (run views env request kit).inside.executed ≡ true
      → (executor_id : Text) × (c : Compiled) × (request.options.executor_id ≡ some executor_id)
        × (compile views env request.task executor_id request.options.adapter_options
              request.options.public_option_context kit
            ≡ ok c)
        × (c.admission.verdict ≡ allowed)
  compile_allows request kit called =
      let x = run-IsExecuted views env request kit called in
      let s = start_run-IsStarted views env request kit x.entered x.started in
      let (given, _, _) =
        capture_run_options_given request.options request.created_id x.entered.options s.captured in
      (
        x.entered.options.executor_id,
        _,
        given,
        compile_of_executed request kit x,
        x.gate.static_allowed,
      )
