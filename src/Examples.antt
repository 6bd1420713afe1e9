-- ===== src/Examples.antt =====
-- The theorems at the inputs of Fixture.antt.
use mathlib.Core.List.Memᴰ
use policy_machinery.Types.{targetable, get_locator, UniverseLaws}
use policy_machinery.Dot.Assoc.{AssocGraph, assoc_dot, assoc_laws}
use policy_machinery.Collection.{
  Collection, targetables_of, paths, parents, children, policies_of, objects_of, all_of,
}
use policy_machinery.Prelude.{
  String, contains, Memᴰ, List, ◌≡◌, some, true, ◌↔◌, ◌∷◌, false, [], ◌&&◌, ◌||◌, distinct, map,
  lookup,
}
use policy_machinery.Dag.{is_dag}
use policy_machinery.Dag.Cycle.{IsClosed, IsAcyclic}
use policy_machinery.Fixture.Built.{
  universe, built, service_with_policy, gateway_wrapper, given, built-IsClosed, built_lem,
  route_wrapper, built-IsKeyed, service_found, gateway_found, route_found,
}
use policy_machinery.Topology.{
  policies_by_target_ref, loop_detected, apply_options, LinkFunc, TopologyOptionsFunc,
  with_targetables, Topology, with_links,
}
use policy_machinery.Gateway.{
  gateway_universe-UniverseLaws, gateway_methods, backend_tls_policy, gateway, protocol_methods,
  http_methods, route, http, link_gateway_class_to_gateway,
}
use policy_machinery.Fixture.{kubernetes, extension-ExtensionLaws, policy_p, extension}
use policy_machinery.Topology.Graph.{names_target, all_locators, linkables}
use policy_machinery.Topology.Correct.{
  new_topology-IsClosed, new_topology_error, new_topology_policies, new_topology_graph,
}
use policy_machinery.Topology.Policies.{targeting, policies_by_target_ref_lem}
use policy_machinery.Kubernetes.{locator_from_object, trimmed_name, trim_prefix, to_lower}
use policy_machinery.Dag.Correct.{is_dag_iff}
use policy_machinery.Collection.Family.{parents_iff_children}
use policy_machinery.Collection.Paths.{IsPath, paths_iff, IsKeyed}
use policy_machinery.Topology.Links.{link_edges}
use policy_machinery.Collection.Keyed.{collections-IsKeyed}

abbrev graph : AssocGraph
graph = built.0.graph

abbrev laws : UniverseLaws universe
laws = gateway_universe-UniverseLaws kubernetes extension-ExtensionLaws

abbrev targetables : Collection universe assoc_dot universe.Targetable
targetables = targetables_of built.0

abbrev gateway_key : String
gateway_key = "gateway.gateway.networking.k8s.io:ns/g"

abbrev service_key : String
service_key = "service:ns/s"

is_dag_iff_example : (is_dag assoc_dot graph ≡ some true) ↔ IsAcyclic assoc_dot graph
is_dag_iff_example = is_dag_iff assoc_dot graph assoc_laws built-IsClosed

new_topology_graph_example : contains (assoc_dot.edges_from graph gateway_key) service_key ≡ (
    names_target universe (apply_options universe given).policies gateway_key service_key
      && contains (all_locators universe (apply_options universe given)) service_key
    || link_edges universe
        (apply_options universe given).links
        (linkables universe (apply_options universe given))
        gateway_key
        service_key
      && (contains (all_locators universe (apply_options universe given)) gateway_key
          && contains (all_locators universe (apply_options universe given)) service_key))
new_topology_graph_example =
    (new_topology_graph laws assoc_laws given built.0 built.1 built_lem).1 gateway_key service_key

new_topology-IsClosed_example : IsClosed assoc_dot graph
new_topology-IsClosed_example =
    new_topology-IsClosed laws assoc_laws given built.0 built.1 built_lem

new_topology_error_example :
    (built.1 ≡ some loop_detected)
    ↔ (((apply_options universe given).allow_loops ≡ false) × ¬ IsAcyclic assoc_dot graph)
new_topology_error_example = new_topology_error laws assoc_laws given built.0 built.1 built_lem

new_topology_policies_example :
    (universe.targetable_methods.get_locator service_with_policy ≡ service_key)
    × (universe.policies service_with_policy
        ≡ targeting universe (apply_options universe given).policies service_key)
new_topology_policies_example =
    (new_topology_policies laws assoc_laws given built.0 built.1 built_lem).0 service_key
      service_with_policy service_found

policies_by_target_ref_lem_example :
    policies_by_target_ref universe (backend_tls_policy policy_p ∷ []) service_key
    ≡ targeting universe (backend_tls_policy policy_p ∷ []) service_key
policies_by_target_ref_lem_example =
    policies_by_target_ref_lem universe (backend_tls_policy policy_p ∷ []) service_key

abbrev class_link : LinkFunc universe
class_link = link_gateway_class_to_gateway kubernetes extension []

abbrev linked : List (TopologyOptionsFunc universe)
linked =
    with_targetables universe (gateway gateway_wrapper ∷ [])
    ∷ with_links universe (class_link ∷ [])
    ∷ []

paths_iff_example :
    Memᴰ
      (some (gateway gateway_wrapper)
        ∷ some (route http route_wrapper)
        ∷ some service_with_policy
        ∷ [])
      (paths targetables
        (some (targetable (gateway gateway_wrapper)))
        (some (targetable service_with_policy)))
    ↔ ((locators : List String) × IsPath targetables
          (get_locator {u = universe} (targetable service_with_policy))
          (get_locator {u = universe} (targetable (gateway gateway_wrapper)))
          locators
        × (distinct locators ≡ true)
        × ((some (gateway gateway_wrapper)
              ∷ some (route http route_wrapper)
              ∷ some service_with_policy
              ∷ [])
            ≡ map (lookup targetables.items) locators))
paths_iff_example =
    paths_iff targetables built-IsKeyed (targetable (gateway gateway_wrapper))
      (targetable service_with_policy)
      (some (gateway gateway_wrapper)
        ∷ some (route http route_wrapper)
        ∷ some service_with_policy
        ∷ [])

parents_iff_children_example :
    Memᴰ (gateway gateway_wrapper) (parents targetables (targetable (route http route_wrapper)))
    ↔ Memᴰ (route http route_wrapper) (children targetables (targetable (gateway gateway_wrapper)))
unfolding targetables_of gateway_methods protocol_methods http_methods locator_from_object
    trimmed_name trim_prefix to_lower
parents_iff_children_example =
    parents_iff_children assoc_laws targetables built-IsKeyed (gateway gateway_wrapper)
      (route http route_wrapper) gateway_found route_found

collections-IsKeyed_example :
    IsKeyed (targetables_of built.0)
    × IsKeyed (policies_of built.0)
    × IsKeyed (objects_of built.0)
    × IsKeyed (all_of built.0)
collections-IsKeyed_example = collections-IsKeyed given built.0 built.1 built_lem
