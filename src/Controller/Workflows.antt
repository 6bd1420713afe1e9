-- ===== src/Controller/Workflows.antt =====
-- controller/workflow.go: a precondition, tasks that run at the same time, and a postcondition, with an
-- error handler.
use mathlib.Core.List.{Permᴰ}
use policy_machinery.Controller.Methods.{Objects}
use policy_machinery.Controller.Events.{ResourceEvent}
use policy_machinery.Prelude.{String, List, Option, none, some, [], ◌∷◌}

-- Go errors: a raised one, and what errors.Join makes of its arguments that are not nil.
pub data Fault : Type 0 where
  raised : String → Fault
  join_one : Fault → Fault
  join_two : Fault → Fault → Fault

-- errors.Join, of an error that may be nil and one that is not
abbrev pub join_errors : Option Fault → Fault → Fault
join_errors none e = join_one e
join_errors (some c) e = join_two c e

-- the error that g.Wait of errgroup returns: by its documentation, the first in time
abbrev pub first_error : Option Fault → Option Fault → Option Fault
first_error none later = later
first_error (some e) later = some e

-- `Run` after a stage: it returns the error that is raised, and goes on otherwise
abbrev pub proceed : {W : Type 0} → W × Option Fault → (W → W × Option Fault) → W × Option Fault
proceed (world, some e) next = (world, some e)
proceed (world, none) next = next world

-- context.Context, as far as the functions can tell: whether it is cancelled
pub data Context : Type 0 where
  live : Context
  cancelled : Context

-- the context of errgroup.WithContext, by its documentation: it is cancelled when a function of the group
-- first returns an error
abbrev pub cancel_on : Context → Option Fault → Context
cancel_on ctx none = ctx
cancel_on ctx (some e) = cancelled

-- The Go scheduler: the order in which the goroutines of errgroup get to run, each to its end. It may
-- depend on the state of the world, and each goroutine runs once.
pub record Scheduler (F W : Type 0) : Type 0 where
  pub arrange : W → List F → List F
  pub once_each : (world : W) (fs : List F) → Permᴰ fs (arrange world fs)

-- `T` is the topology that the functions are given; `W` is all that they read and change beside it: the
-- state that they share and the outside world.
module _ (o : Objects) (T W : Type 0) where
  abbrev pub ReconcileFunc : Type 0
  ReconcileFunc = Context → List (ResourceEvent o) → T → Option Fault → W → W × Option Fault

  pub record Workflow : Type 0 where
    pub precondition : Option ReconcileFunc
    pub tasks : List ReconcileFunc
    pub postcondition : Option ReconcileFunc
    pub error_handler : Option ReconcileFunc

module _ {o : Objects} {T W : Type 0} where
  -- `Workflow.handle`
  unfoldable pub handle_error :
      Option (ReconcileFunc o T W)
      → Context
      → List (ResourceEvent o)
      → T
      → Option Fault
      → W
      → Fault
      → W × Option Fault
  handle_error none ctx events t carried world e = (world, some e)
  handle_error (some handler) ctx events t carried world e =
      handler ctx events t (some (join_errors carried e)) world

  -- The tasks, each run to its end, in the order in which they get to run, with the context of the
  -- group: it is cancelled for those that run after one that failed.
  unfoldable pub run_tasks : List (ReconcileFunc o T W) → ReconcileFunc o T W
  run_tasks [] ctx events t carried world = (world, none)
  run_tasks (task ∷ tasks) ctx events t carried world =
      let (after, e) = task ctx events t carried world in
      let (last, later) = run_tasks tasks (cancel_on ctx e) events t carried after in
      (last, first_error e later)

  -- one stage of `Run`: its function, and the handler where the function fails
  unfoldable pub run_stage :
      Option (ReconcileFunc o T W) → ReconcileFunc o T W → ReconcileFunc o T W
  unfolding handle_error
  run_stage handler f ctx events t carried world =
      let (after, e) = f ctx events t carried world in
      elim e [
        | none ↦ (after, none)
        | some fault ↦ handle_error handler ctx events t carried after fault
      ]

  -- a stage that is nil is passed over
  unfoldable pub run_optional :
      Option (ReconcileFunc o T W) → Option (ReconcileFunc o T W) → ReconcileFunc o T W
  unfolding run_stage
  run_optional handler none ctx events t carried world = (world, none)
  run_optional handler (some f) ctx events t carried world =
      run_stage handler f ctx events t carried world

  -- `Workflow.Run`
  unfoldable pub run : Scheduler (ReconcileFunc o T W) W → Workflow o T W → ReconcileFunc o T W
  run scheduler w ctx events t carried world =
      proceed (run_optional w.error_handler w.precondition ctx events t carried world) (λ prepared.
        proceed
          (run_stage w.error_handler (run_tasks (scheduler.arrange prepared w.tasks)) ctx events t
            carried prepared)
          (λ done. run_optional w.error_handler w.postcondition ctx events t carried done))
