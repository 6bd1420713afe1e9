-- ===== src/Topology/Build.antt =====
-- The graph of a topology, the loop check, and NewTopology, of machinery/topology.go.
use policy_machinery.Prelude.{
  Bool, true, false, some, none, List, String, Option, ◌∷◌, if◌then◌else◌, filter, ◌&&◌,
  slice_to_map, [],
}
use policy_machinery.Dag.{is_dag}
use policy_machinery.Types.{Universe, ObjectMethods, Object, get_locator, same_kind, group_kind}
use policy_machinery.Dot.{Dot}
use policy_machinery.Topology.Options.{
  LinkFunc, TopologyOptions, apply_options, TopologyOptionsFunc, Topology, Error, loop_detected,
}
use policy_machinery.Topology.Index.{attach, linkables_of}

module _ (u : Universe) (d : Dot) where
  open u use {
    Targetable, Policy, Reference, Other, targetable_methods, policy_methods, reference_methods,
    other_methods, get_target_refs,
  }
  open d use {Graph, new_graph, node, edge, find_node_by_id}

  -- `addObjectsToGraph`, for values whose locators a method gives; labels and shapes are left out
  unfoldable pub add_objects_to_graph : {A : Type 0} → ObjectMethods A → Graph → List A → Graph
  add_objects_to_graph methods g [] = g
  add_objects_to_graph methods g (o ∷ os) =
      add_objects_to_graph methods (node g (methods.get_locator o)) os

  unfoldable pub add_targetables_to_graph : Graph → List Targetable → Graph
  unfolding add_objects_to_graph
  add_targetables_to_graph = add_objects_to_graph targetable_methods

  -- the edges from one policy to the targets that are nodes
  unfoldable pub add_target_edges : String → Graph → List Reference → Graph
  add_target_edges from g [] = g
  add_target_edges from g (ref ∷ refs) =
      let to = reference_methods.get_locator ref in
      add_target_edges from (if find_node_by_id g to then edge g from to else g) refs

  unfoldable pub add_policy_edges : Graph → List Policy → Graph
  add_policy_edges g [] = g
  add_policy_edges g (p ∷ ps) =
      add_policy_edges (add_target_edges (policy_methods.get_locator p) g (get_target_refs p)) ps

  unfoldable pub add_policies_to_graph : Graph → List Policy → Graph
  unfolding add_objects_to_graph add_policy_edges
  add_policies_to_graph g ps = add_policy_edges (add_objects_to_graph policy_methods g ps) ps

  unfoldable pub add_edge_to_graph : Graph → Object u → Object u → Graph
  add_edge_to_graph g parent child =
      if find_node_by_id g (get_locator parent) && find_node_by_id g (get_locator child)
      then edge g (get_locator parent) (get_locator child)
      else g

  -- the loop over the parents that a link function gives for a child; nil is skipped
  unfoldable pub link_parents : Object u → Graph → List (Option (Object u)) → Graph
  link_parents child g [] = g
  link_parents child g (none ∷ ps) = link_parents child g ps
  link_parents child g (some p ∷ ps) = link_parents child (add_edge_to_graph g p child) ps

  -- the loop over the children of a link
  unfoldable pub link_children : LinkFunc u → Graph → List (Object u) → Option Graph
  link_children link g [] = some g
  link_children link g (child ∷ cs) = elim (link.func child) [
    | none ↦ none
    | some parents ↦ link_children link (link_parents child g parents) cs
  ]

  -- the loop over the links
  unfoldable pub add_links : List (Object u) → Graph → List (LinkFunc u) → Option Graph
  add_links linkables g [] = some g
  add_links linkables g (link ∷ links) =
      elim (link_children link g (filter (λ l. same_kind (group_kind l) link.to) linkables)) [
        | none ↦ none
        | some g' ↦ add_links linkables g' links
      ]

  -- the nodes, and the edges from policies to their targets
  unfoldable pub base_graph : List Other → List Targetable → List Policy → Graph
  unfolding add_objects_to_graph add_targetables_to_graph add_policies_to_graph
  base_graph os ts ps =
      add_policies_to_graph
        (add_targetables_to_graph (add_objects_to_graph other_methods new_graph os) ts) ps

  -- the error, where loops are not allowed and isDAG finds one: isDAG runs only where they are not
  -- allowed, and it may panic
  unfoldable pub loop_error : Bool → Graph → Option (Option Error)
  loop_error true g = some none
  loop_error false g = elim (is_dag d g) [
    | none ↦ none
    | some dag ↦ some (if dag then none else some loop_detected)
  ]

  -- `none` is a panic. Beside an error the topology is returned too.
  unfoldable pub build_topology : TopologyOptions u → Option (Topology u d × Option Error)
  unfolding loop_error
  build_topology o =
      let targetables = attach u o.policies o.targetables in
      elim (add_links (linkables_of u o.objects targetables o.policies)
        (base_graph o.objects targetables o.policies) o.links) [
          | none ↦ none
          | some g ↦ elim (loop_error o.allow_loops g) [
            | none ↦ none
            | some err ↦ some (
              record {
                graph = g;
                targetables = slice_to_map targetable_methods.get_locator targetables;
                policies = slice_to_map policy_methods.get_locator o.policies;
                objects = slice_to_map other_methods.get_locator o.objects;
              },
              err,
            )
          ]
        ]

  unfoldable pub new_topology : List (TopologyOptionsFunc u) → Option (Topology u d × Option Error)
  unfolding apply_options build_topology
  new_topology options = build_topology (apply_options u options)
