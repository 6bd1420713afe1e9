-- ===== src/ControllerExamples.antt =====
-- The theorems on the controller at the inputs of Fixture/World.antt.
use policy_machinery.Controller.{by_caller, propagate}
use mathlib.Core.List.Permᴰ
use mathlib.Core.List.{Permᴰ}
use policy_machinery.Controller.{Scheduler, live}
use policy_machinery.Controller.Reachable.{take_snapshot, caught_up}
use policy_machinery.Controller.{Step}
use policy_machinery.Fixture.World.{
  before, after, resources, resources-laws, assoc_map, assoc_map-laws, gateways, gateway_one,
  gateway_one_changed, gateway_two,
}
use policy_machinery.Controller.{
  WatchableMap, System, controller_add, Snapshot, handle_cache_event, store_equal, ReconcileFunc,
  run, run_stage, Subscription, ResourceEvent, Store, diff, updated, start, cache_add, Reach,
  filter_by_group_kind, Workflow, run_tasks, Fault, subscribe, cache_list, run_optional,
  subscription_reconcile, raised, update_event, next, handle_error, begin, add,
}
use policy_machinery.Gateway.{Reference, backend_tls_policy}
use policy_machinery.Fixture.Cluster.{
  cluster_universe, cluster_service, casts, cluster, builder, service_locator, cluster_built,
  cluster_built_lem, cluster_service_found,
}
use policy_machinery.Prelude.{
  List, lookup, Memᴰ, ◌+◌, if◌then◌else◌, none, Option, ℕ, ◌≡◌, same_number, ◌∷◌, [], some, Bool,
  ◌↔◌, String, true, refl, ap, mem_singleton, filter,
}
use policy_machinery.Controller.Replay.{replay, replay-diff}
use policy_machinery.Controller.Invariant.{Inv}
use policy_machinery.Controller.Reachable.{Reach-Inv, Reach-catches_up, Reach-add_returns}
use policy_machinery.Controller.Diff.{lookup-diff}
use policy_machinery.Controller.Matching.{
  HasObject, old, Wanted, subscription-diff, call_on, subscription_reconcile_lem,
}
use policy_machinery.Controller.Changes.{Change, diff_events}
use policy_machinery.Controller.Quiet.{handle_cache_event-quiet}
use policy_machinery.Controller.Stores.{store_equal_iff, mem-filter_by_group_kind}
use policy_machinery.Controller.Tasks.{OptionalSucceeds, AllSucceed}
use policy_machinery.Controller.Stages.{run_suppressed, run_succeeds_iff}
use policy_machinery.Fixture.{policy_p, extension-ExtensionLaws}
use policy_machinery.Controller.Given.{FromKinds}
use policy_machinery.Controller.Built.{build_from_store_policies}
use policy_machinery.Dot.Assoc.{assoc_laws}

abbrev world_map : WatchableMap (Store resources)
world_map = assoc_map

lookup-diff_example : lookup (diff resources before after).0 "3" ≡ lookup after "3"
lookup-diff_example = lookup-diff resources-laws before after "3" refl

diff_events_example :
    Memᴰ (updated resources gateway_one gateway_one_changed) (diff resources before after).1
    ↔ Change before after (updated resources gateway_one gateway_one_changed)
diff_events_example =
    diff_events resources-laws before after refl refl
      (updated resources gateway_one gateway_one_changed)

replay-diff_example :
    replay resources before (diff resources before after).1 ≡ (diff resources before after).0
replay-diff_example = replay-diff resources before after (refl, (refl, tt)) (refl, (refl, tt))

-- the state after the first resource is added
abbrev added : System resources world_map
added = record (start resources world_map) { cache = ("resources", ("1", gateway_one) ∷ []) ∷ [] }

added-Reach : Reach resources world_map added
unfolding controller_add cache_add subscribe
added-Reach = next begin (add gateway_one (("resources", ("1", gateway_one) ∷ []) ∷ []) refl)

-- an event that a caller propagates, and no step of the cache has made
abbrev given_event : ResourceEvent resources
given_event = updated resources gateway_one gateway_one_changed

Reach-Inv_example : Inv (record added { propagated = by_caller (given_event ∷ []) ∷ [] })
Reach-Inv_example =
    Reach-Inv resources-laws assoc_map-laws (next added-Reach (propagate (given_event ∷ [])))

Reach-catches_up_example :
    Step resources world_map added (take_snapshot added)
    × Step resources world_map (take_snapshot added) (caught_up added)
    × ((caught_up added).cache ≡ added.cache)
    × ((caught_up added).pending ≡ none)
    × ((uid : String)
        → lookup (caught_up added).known uid
          ≡ lookup (cache_list resources world_map added.cache "resources") uid)
Reach-catches_up_example = Reach-catches_up resources-laws assoc_map-laws added-Reach

Reach-add_returns_example :
    (c : world_map.State) × (controller_add resources world_map added.cache gateway_two ≡ some c)
    × (lookup (cache_list resources world_map c "resources") "2" ≡ some gateway_two)
Reach-add_returns_example = Reach-add_returns resources-laws assoc_map-laws gateway_two added-Reach

-- a snapshot of the state after
abbrev news : Snapshot (Store resources)
news = record { updates = "resources" ∷ []; state = ("resources", after) ∷ [] }

handle_cache_event-quiet_example :
    ((handle_cache_event resources news before).1 ≡ none)
    ↔ ((k : String) → lookup before k ≡ lookup after k)
handle_cache_event-quiet_example =
    handle_cache_event-quiet resources-laws news before after refl refl refl refl

store_equal_iff_example :
    (store_equal resources before after ≡ true) ↔ ((k : String) → lookup before k ≡ lookup after k)
store_equal_iff_example = store_equal_iff resources-laws before after refl refl

mem-filter_by_group_kind_example :
    Memᴰ gateway_two (filter_by_group_kind resources before gateways)
    ↔ (((k : String) × (lookup before k ≡ some gateway_two)) × (gateways ≡ gateways))
mem-filter_by_group_kind_example =
    mem-filter_by_group_kind resources before gateways gateway_two refl

-- functions on a world of two counters, with no topology
abbrev Func : Type 0
Func = ReconcileFunc resources (Unit {0}) (ℕ × ℕ)

abbrev count_left : Func
count_left ctx events t carried (m, n) = ((m + 1, n), none)

-- fails on an even counter, which it leaves as it is
abbrev count_right : Func
count_right ctx events t carried (m, n) =
    if same_number n 0 then ((m, n), some (raised "empty")) else ((m, n + 1), none)

abbrev suppress : Func
suppress ctx events t carried world = (world, none)

abbrev counting : Option Func → Workflow resources (Unit {0}) (ℕ × ℕ)
counting handler = record {
  precondition = some count_left;
  tasks = count_left ∷ count_right ∷ [];
  postcondition = none;
  error_handler = handler;
}

-- the first two tasks get to run in the other order
abbrev swap_first : List Func → List Func
swap_first [] = []
swap_first (f ∷ []) = f ∷ []
swap_first (f ∷ g ∷ fs) = g ∷ f ∷ fs

swap_first-once_each : (world : ℕ × ℕ) (fs : List Func) → Permᴰ fs (swap_first fs)
swap_first-once_each world [] = Permᴰ.refl _
swap_first-once_each world (f ∷ []) = Permᴰ.refl _
swap_first-once_each world (f ∷ g ∷ fs) = Permᴰ.swap refl refl

abbrev swapped : Scheduler Func (ℕ × ℕ)
swapped = record { arrange = λ world fs. swap_first fs; once_each = swap_first-once_each }

run_succeeds_iff_example : ((run swapped (counting none) live [] tt none (0, 0)).1 ≡ none) ↔ (
    OptionalSucceeds live [] tt none (some count_left) (0, 0)
    × AllSucceed live [] tt none (count_right ∷ count_left ∷ []) (1, 0)
    × OptionalSucceeds {o = resources} {T = Unit {0}} {W = ℕ × ℕ} live [] tt none none (2, 0))
run_succeeds_iff_example = run_succeeds_iff live [] tt none swapped (counting none) (0, 0) refl

run_suppressed_example :
    run swapped (counting (some suppress)) live [] tt none (0, 0) ≡ ((2, 0), none)
unfolding run_stage run_tasks run_optional handle_error
run_suppressed_example =
    run_suppressed live [] tt none swapped (counting (some suppress)) suppress (0, 0) refl
      (λ c x. refl)

-- a subscription to updates of gateways
abbrev updates : Subscription resources (Unit {0}) (ℕ × ℕ)
updates = record {
  reconcile_func = some count_left;
  events =
      record {
        kind = some gateways;
        event_type = some update_event;
        object_namespace = "ns";
        object_name = "";
      }
      ∷ [];
}

abbrev update_of_one : ResourceEvent resources
update_of_one = updated resources gateway_one gateway_one_changed

one_object : (ev : ResourceEvent resources) → Memᴰ ev (update_of_one ∷ []) → HasObject ev
one_object ev m =
    (gateway_one, old (ap (λ (e : ResourceEvent resources). e.old_object) (mem_singleton m)))

subscription_reconcile_lem_example :
    (test : ResourceEvent resources → Bool) × ((ev : ResourceEvent resources)
      → HasObject ev
      → (test ev ≡ true) ↔ Wanted updates.events ev)
    × (subscription_reconcile updates live (update_of_one ∷ []) tt none (0, 0)
        ≡ some (call_on (some count_left) live (filter test (update_of_one ∷ [])) tt none (0, 0)))
subscription_reconcile_lem_example =
    subscription_reconcile_lem updates live (update_of_one ∷ []) tt none (0, 0) one_object

subscription-diff_example :
    (r : (ℕ × ℕ) × Option Fault) × (subscription_reconcile updates live
        (diff resources before after).1
        tt
        none
        (0, 0)
      ≡ some r)
subscription-diff_example =
    subscription-diff resources-laws updates live before after tt none (0, 0) refl refl

build_from_store_policies_example :
    Memᴰ (backend_tls_policy policy_p) (cluster_universe.policies cluster_service) ↔ (
      FromKinds casts cluster builder.policy_kinds (backend_tls_policy policy_p)
      × ((ref : Reference ⊥) × Memᴰ ref
            (cluster_universe.get_target_refs (backend_tls_policy policy_p))
          × (cluster_universe.reference_methods.get_locator ref ≡ service_locator)))
build_from_store_policies_example =
    build_from_store_policies extension-ExtensionLaws assoc_laws casts builder cluster
      cluster_built.0 cluster_built.1 cluster_built_lem service_locator cluster_service
      cluster_service_found (backend_tls_policy policy_p)
