-- ===== src/Controller/Tasks.antt =====
-- controller/workflow.go: the tasks of a workflow, and one stage with its error handler.
use policy_machinery.Prelude.{
  Option, List, ◌≡◌, none, ◌↔◌, some, ◌∷◌, none-ne-some, Option-cases, [], inl, refl, inr,
}
use policy_machinery.Controller.Methods.{Objects}
use policy_machinery.Controller.Workflows.{
  Context, cancel_on, Fault, ReconcileFunc, run_tasks, run_stage, run_optional, handle_error,
  join_errors, proceed,
}
use policy_machinery.Controller.Events.{ResourceEvent}

pub proceed_on :
    {W : Type 0} (p : W × Option Fault) (next : W → W × Option Fault)
    → p.1 ≡ none
    → proceed p next ≡ next p.0
proceed_on (world, none) next h = refl
proceed_on (world, some e) next h = absurd (none-ne-some h refl)

pub proceed_succeeds_iff :
    {W : Type 0} (p : W × Option Fault) (next : W → W × Option Fault)
    → ((proceed p next).1 ≡ none) ↔ ((p.1 ≡ none) × ((next p.0).1 ≡ none))
proceed_succeeds_iff (world, none) next = (λ h. (refl, h), λ h. h.1)
proceed_succeeds_iff (world, some e) next =
    (λ h. absurd (none-ne-some h refl), λ h. absurd (none-ne-some h.0 refl))

module _ {o : Objects} {T W : Type 0} (events : List (ResourceEvent o)) (t : T)
    (carried : Option Fault) where
  -- what the tasks make of the world, their errors put aside: those that run after one that failed have a
  -- context that is cancelled
  abbrev pub after_tasks : Context → List (ReconcileFunc o T W) → W → W
  after_tasks ctx [] world = world
  after_tasks ctx (task ∷ tasks) world =
      let (after, e) = task ctx events t carried world in after_tasks (cancel_on ctx e) tasks after

  -- every task runs, also after one has failed
  pub run_tasks_world :
      (ctx : Context) (tasks : List (ReconcileFunc o T W)) (world : W)
      → (run_tasks tasks ctx events t carried world).0 ≡ after_tasks ctx tasks world
  unfolding run_tasks
  run_tasks_world ctx [] world = refl
  run_tasks_world ctx (task ∷ tasks) world =
      run_tasks_world (cancel_on ctx (task ctx events t carried world).1) tasks
        (task ctx events t carried world).0

module _ {o : Objects} {T W : Type 0} (ctx : Context) (events : List (ResourceEvent o)) (t : T)
    (carried : Option Fault) where
  -- every task, run where its turn comes, returns no error
  abbrev pub AllSucceed : List (ReconcileFunc o T W) → W → Type 0
  AllSucceed [] world = Unit {0}
  AllSucceed (task ∷ tasks) world =
      ((task ctx events t carried world).1 ≡ none)
      × AllSucceed tasks (task ctx events t carried world).0

  -- a stage that is not nil returns no error
  abbrev pub OptionalSucceeds : Option (ReconcileFunc o T W) → W → Type 0
  OptionalSucceeds none world = Unit {0}
  OptionalSucceeds (some f) world = (f ctx events t carried world).1 ≡ none

  -- what a stage makes of the world, its error put aside
  abbrev pub after_optional : Option (ReconcileFunc o T W) → W → W
  after_optional none world = world
  after_optional (some f) world = (f ctx events t carried world).0

  pub run_tasks_iff :
      (tasks : List (ReconcileFunc o T W)) (world : W)
      → ((run_tasks tasks ctx events t carried world).1 ≡ none) ↔ AllSucceed tasks world
  unfolding run_tasks
  run_tasks_iff [] world = (λ h. tt, λ h. refl)
  run_tasks_iff (task ∷ tasks) world = elim (Option-cases (task ctx events t carried world).1) [
    | inl fine ↦
        rw (run_tasks, fine)
          (
            λ h. (refl, (run_tasks_iff tasks (task ctx events t carried world).0).0 h),
            λ (_, h). (run_tasks_iff tasks (task ctx events t carried world).0).1 h,
          )
    | inr (e, failed) ↦
        rw (run_tasks, failed)
          (λ h. absurd (none-ne-some h refl), λ (h, _). absurd (none-ne-some h refl))
  ]

  -- with no handler a stage is its function
  pub run_stage_unhandled :
      (f : ReconcileFunc o T W) (world : W)
      → run_stage none f ctx events t carried world
        ≡ ((f ctx events t carried world).0, (f ctx events t carried world).1)
  unfolding run_stage handle_error
  run_stage_unhandled f world = elim (Option-cases (f ctx events t carried world).1) [
    | inl quiet ↦ rw (run_stage, quiet) refl
    | inr (e, failed) ↦ rw (run_stage, failed) refl
  ]

  pub run_stage_quiet :
      (handler f : ReconcileFunc o T W) (world : W)
      → ((c : Option Fault) (x : W) → (handler ctx events t c x).1 ≡ none)
      → (run_stage (some handler) f ctx events t carried world).1 ≡ none
  unfolding run_stage handle_error
  run_stage_quiet handler f world quiet = elim (Option-cases (f ctx events t carried world).1) [
    | inl none_failed ↦ rw (run_stage, none_failed) refl
    | inr (e, failed) ↦
        rw (run_stage, failed)
          (quiet (some (join_errors carried e)) (f ctx events t carried world).0)
  ]

  pub run_optional_quiet :
      (handler : ReconcileFunc o T W) (f : Option (ReconcileFunc o T W)) (world : W)
      → ((c : Option Fault) (x : W) → (handler ctx events t c x).1 ≡ none)
      → (run_optional (some handler) f ctx events t carried world).1 ≡ none
  unfolding run_optional
  run_optional_quiet handler none world quiet = refl
  run_optional_quiet handler (some f) world quiet = run_stage_quiet handler f world quiet

  pub run_optional_unhandled :
      (f : Option (ReconcileFunc o T W)) (world : W)
      → ((run_optional none f ctx events t carried world).0 ≡ after_optional f world)
        × (((run_optional none f ctx events t carried world).1 ≡ none) ↔ OptionalSucceeds f world)
  unfolding run_optional
  run_optional_unhandled none world = (refl, (λ h. tt, λ h. refl))
  run_optional_unhandled (some f) world = rw (run_stage_unhandled f world) (refl, (λ h. h, λ h. h))
