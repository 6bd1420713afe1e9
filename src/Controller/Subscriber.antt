-- ===== src/Controller/Subscriber.antt =====
-- controller/subscriber.go: a reconcile function that is called on the events that match.
use policy_machinery.Controller.Workflows.{Context}
use policy_machinery.Types.{GroupKind, same_kind}
use policy_machinery.Controller.Methods.{Objects}
use policy_machinery.Controller.Events.{
  ResourceEvent, EventType, create_event, update_event, delete_event,
}
use policy_machinery.Controller.Workflows.{ReconcileFunc, Fault}
use policy_machinery.Prelude.{
  String, Bool, true, false, ◌==◌, List, Option, none, some, [], ◌∷◌, if◌then◌else◌,
}

abbrev pub same_event_type : EventType → EventType → Bool
same_event_type create_event create_event = true
same_event_type update_event update_event = true
same_event_type delete_event delete_event = true
same_event_type _ _ = false

pub record ResourceEventMatcher : Type 0 where
  pub kind : Option GroupKind
  pub event_type : Option EventType
  pub object_namespace : String
  pub object_name : String

-- Go's `||` and `&&` on tests that may panic (`none`): the right one is run only where it counts
abbrev pub or_else : Bool → Option Bool → Option Bool
or_else true later = some true
or_else false later = later

abbrev pub and_then : Option Bool → Option Bool → Option Bool
and_then none later = none
and_then (some true) later = later
and_then (some false) later = some false

module _ {o : Objects} where
  -- `obj` in the filter: nil only where the event has neither object
  abbrev pub object_of : ResourceEvent o → Option o.Object
  object_of ev = elim ev.old_object [ some x ↦ some x | none ↦ ev.new_object ]

  -- a method call on `obj`, which panics on nil, compared to the text of the matcher
  abbrev pub compare_to : String → (o.Object → String) → ResourceEvent o → Option Bool
  compare_to text method ev =
      or_else (text == "") (elim (object_of ev) [ none ↦ none | some x ↦ some (text == method x) ])

  -- whether a matcher matches an event
  unfoldable pub matcher_matches : ResourceEvent o → ResourceEventMatcher → Option Bool
  matcher_matches ev m =
      and_then (some (elim m.kind [ none ↦ true | some k ↦ same_kind k ev.kind ])) (
        and_then
          (some (elim m.event_type [ none ↦ true | some t ↦ same_event_type t ev.event_type ]))
          (and_then (compare_to m.object_namespace o.get_namespace ev)
            (compare_to m.object_name o.get_name ev)))

  -- lo.ContainsBy over the matchers
  unfoldable pub some_matches : ResourceEvent o → List ResourceEventMatcher → Option Bool
  some_matches ev [] = some false
  some_matches ev (m ∷ ms) = elim (matcher_matches ev m) [
    | none ↦ none
    | some true ↦ some true
    | some false ↦ some_matches ev ms
  ]

  -- lo.Filter over the events
  unfoldable pub matching_events :
      List ResourceEventMatcher → List (ResourceEvent o) → Option (List (ResourceEvent o))
  matching_events ms [] = some []
  matching_events ms (ev ∷ evs) = elim (some_matches ev ms) [
    | none ↦ none
    | some kept ↦ elim (matching_events ms evs) [
      | none ↦ none
      | some rest ↦ some (if kept then ev ∷ rest else rest)
    ]
  ]

module _ (o : Objects) (T W : Type 0) where
  pub record Subscription : Type 0 where
    pub reconcile_func : Option (ReconcileFunc o T W)
    pub events : List ResourceEventMatcher

module _ {o : Objects} {T W : Type 0} where
  -- `Subscription.Reconcile`; `none` is a panic
  unfoldable pub subscription_reconcile :
      Subscription o T W
      → Context
      → List (ResourceEvent o)
      → T
      → Option Fault
      → W
      → Option (W × Option Fault)
  subscription_reconcile s ctx events t carried world = elim (matching_events s.events events) [
    | none ↦ none
    | some [] ↦ some (world, none)
    | some (ev ∷ evs) ↦ elim s.reconcile_func [
      | none ↦ some (world, none)
      | some f ↦ some (f ctx (ev ∷ evs) t carried world)
    ]
  ]
