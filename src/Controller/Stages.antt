-- ===== src/Controller/Stages.antt =====
-- controller/workflow.go: which stages of a workflow run, and what becomes of their errors.
use policy_machinery.Prelude.{Option, List, ◌≡◌, none, ◌↔◌, some, ap, sym, ◌∙◌, subst}
use policy_machinery.Controller.Methods.{Objects}
use policy_machinery.Controller.Workflows.{
  Context, Scheduler, Fault, ReconcileFunc, run_tasks, run_stage, Workflow, run, run_optional,
  proceed,
}
use policy_machinery.Controller.Events.{ResourceEvent}
use policy_machinery.Controller.Tasks.{
  proceed_on, proceed_succeeds_iff, after_tasks, run_tasks_world, AllSucceed, OptionalSucceeds,
  after_optional, run_tasks_iff, run_stage_unhandled, run_stage_quiet, run_optional_quiet,
  run_optional_unhandled,
}

module _ {o : Objects} {T W : Type 0} (ctx : Context) (events : List (ResourceEvent o)) (t : T)
    (carried : Option Fault) where
  -- the tasks of a workflow, in the order in which they get to run
  abbrev pub scheduled :
      Scheduler (ReconcileFunc o T W) W → Workflow o T W → W → List (ReconcileFunc o T W)
  scheduled scheduler w prepared = scheduler.arrange prepared w.tasks

  -- `Run` with the handler apart
  abbrev stages :
      Option (ReconcileFunc o T W)
      → Scheduler (ReconcileFunc o T W) W
      → Workflow o T W
      → W
      → W × Option Fault
  stages handler scheduler w world =
      proceed (run_optional handler w.precondition ctx events t carried world) (λ prepared.
        proceed
          (run_stage handler (run_tasks (scheduled scheduler w prepared)) ctx events t carried
            prepared)
          (λ done. run_optional handler w.postcondition ctx events t carried done))

  stages_lem :
      (handler : Option (ReconcileFunc o T W)) (scheduler : Scheduler (ReconcileFunc o T W) W)
      (w : Workflow o T W) (world : W)
      → w.error_handler ≡ handler
      → run scheduler w ctx events t carried world ≡ stages handler scheduler w world
  unfolding run
  stages_lem handler scheduler w world e = ap (λ h. stages h scheduler w world) e

  -- the tasks and the postcondition, with no handler
  abbrev pub rest_of : Workflow o T W → List (ReconcileFunc o T W) → W → W × Option Fault
  rest_of w schedule prepared =
      proceed (run_stage none (run_tasks schedule) ctx events t carried prepared)
        (λ done. run_optional none w.postcondition ctx events t carried done)

  rest_iff :
      (w : Workflow o T W) (schedule : List (ReconcileFunc o T W)) (world : W)
      → ((rest_of w schedule world).1 ≡ none) ↔ (
          AllSucceed ctx events t carried schedule world
          × OptionalSucceeds ctx events t carried w.postcondition
              (after_tasks events t carried ctx schedule world))
  rest_iff w schedule world =
      let tasks = run_stage none (run_tasks schedule) ctx events t carried world in
      let post : W → W × Option Fault =
        λ done. run_optional none w.postcondition ctx events t carried done in
      let both = proceed_succeeds_iff tasks post in
      let same = run_stage_unhandled ctx events t carried (run_tasks schedule) world in
      let e =
        ap (λ (p : W × Option Fault). p.0) same
        ∙ run_tasks_world events t carried ctx schedule world in
      let failed = ap (λ (p : W × Option Fault). p.1) same in
      let tasks_iff = run_tasks_iff ctx events t carried schedule world in
      let post_iff =
        (run_optional_unhandled ctx events t carried w.postcondition
          (after_tasks events t carried ctx schedule world)).1 in
      (
        λ h. (
          tasks_iff.0 (sym failed ∙ (both.0 h).0),
          post_iff.0 (subst (λ x. (post x).1 ≡ none) e (both.0 h).1),
        ),
        λ (h, k).
            both.1 (failed ∙ tasks_iff.1 h, subst (λ x. (post x).1 ≡ none) (sym e) (post_iff.1 k)),
      )

  -- With no error handler a workflow returns no error exactly where its precondition, then each task of
  -- the workflow in the order in which they get to run, then its postcondition returns none, each run
  -- with the context of the caller on the world that those before it left.
  pub run_succeeds_iff :
      (scheduler : Scheduler (ReconcileFunc o T W) W) (w : Workflow o T W) (world : W)
      → w.error_handler ≡ none
      → ((run scheduler w ctx events t carried world).1 ≡ none) ↔ (
          OptionalSucceeds ctx events t carried w.precondition world
          × AllSucceed ctx events t carried
              (scheduled scheduler w (after_optional ctx events t carried w.precondition world))
              (after_optional ctx events t carried w.precondition world)
          × OptionalSucceeds ctx events t carried w.postcondition (
              after_tasks events t carried ctx
                (scheduled scheduler w (after_optional ctx events t carried w.precondition world))
                (after_optional ctx events t carried w.precondition world)))
  run_succeeds_iff scheduler w world unhandled =
      let (same, pre_iff) = run_optional_unhandled ctx events t carried w.precondition world in
      let pre = run_optional none w.precondition ctx events t carried world in
      let go = λ (x : W). rest_of w (scheduled scheduler w x) x in
      let both = proceed_succeeds_iff pre go in
      let prepared = after_optional ctx events t carried w.precondition world in
      let rest = rest_iff w (scheduled scheduler w prepared) prepared in
      let goes_on : W → Type 0 = λ x. (go x).1 ≡ none in
      rw (stages_lem none scheduler w world unhandled) (
        λ h.
            let (tasks, post) = rest.0 (subst goes_on same (both.0 h).1) in
            (pre_iff.0 (both.0 h).0, tasks, post),
        λ (a, b, c). both.1 (pre_iff.1 a, subst goes_on (sym same) (rest.1 (b, c))),
      )

  -- the worlds that the stages of a workflow leave, where a handler suppresses their errors: the
  -- precondition, and the tasks after it
  abbrev pub prepared_by : ReconcileFunc o T W → Workflow o T W → W → W
  prepared_by handler w world =
      (run_optional (some handler) w.precondition ctx events t carried world).0

  abbrev pub tasks_done_by :
      ReconcileFunc o T W → Scheduler (ReconcileFunc o T W) W → Workflow o T W → W → W
  tasks_done_by handler scheduler w world =
      let prepared = prepared_by handler w world in
      (run_stage (some handler) (run_tasks (scheduled scheduler w prepared)) ctx events t carried
        prepared).0

  -- Where the error handler suppresses every error, a workflow returns no error and runs every stage,
  -- each on the world that the stage before it, and the handler of its error, left.
  pub run_suppressed :
      (scheduler : Scheduler (ReconcileFunc o T W) W) (w : Workflow o T W)
      (handler : ReconcileFunc o T W) (world : W)
      → w.error_handler ≡ some handler
      → ((c : Option Fault) (x : W) → (handler ctx events t c x).1 ≡ none)
      → run scheduler w ctx events t carried world ≡ (
        (run_optional
            (some handler)
            w.postcondition
            ctx
            events
            t
            carried
            (tasks_done_by handler scheduler w world)).0,
        none,
      )
  run_suppressed scheduler w handler world handled quiet =
      let pre = run_optional (some handler) w.precondition ctx events t carried world in
      let tasks = run_tasks (scheduled scheduler w pre.0) in
      let mid = run_stage (some handler) tasks ctx events t carried pre.0 in
      stages_lem (some handler) scheduler w world handled
      ∙ proceed_on pre _
          (run_optional_quiet ctx events t carried handler w.precondition world quiet)
      ∙ proceed_on mid _ (run_stage_quiet ctx events t carried handler tasks pre.0 quiet)
      ∙ ap (λ e. ((run_optional (some handler) w.postcondition ctx events t carried mid.0).0, e))
          (run_optional_quiet ctx events t carried handler w.postcondition mid.0 quiet)
