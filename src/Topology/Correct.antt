-- ===== src/Topology/Correct.antt =====
-- What NewTopology promises: its nodes, its edges, its error, its policies, and that it returns.
use mathlib.Core.List.Memᴰ
use policy_machinery.Types.{Universe, UniverseLaws}
use policy_machinery.Dot.{Dot, DotLaws}
use policy_machinery.Prelude.{
  List, String, Option, ◌≡◌, contains, some, arith, ◌&&◌, ◌↔◌, false, ◌||◌, inl, Bool-cases, inr,
  Memᴰ, lookup, keys, lookup-slice_to_map, keys-slice_to_map, ◌∙◌, ap,
}
use policy_machinery.Topology.Options.{
  TopologyOptionsFunc, Topology, Error, TopologyOptions, loop_detected, apply_options,
}
use policy_machinery.Topology.Graph.{
  names_target, all_locators, linkables, linked-nodes, linked-edges, linked-IsClosed, build_parts,
  locators-attach,
}
use policy_machinery.Topology.Build.{
  loop_error, add_links, base_graph, new_topology, build_topology,
}
use policy_machinery.Topology.Edges.{locators}
use policy_machinery.Dag.Cycle.{IsClosed, IsAcyclic}
use policy_machinery.Topology.Index.{attach, attach_one, policies_by_target_ref}
use policy_machinery.Topology.Links.{link_edges}
use policy_machinery.Dag.Correct.{is_dag_iff, is_dag_returns}
use policy_machinery.Topology.Policies.{targeting, policies_by_target_ref_lem}

module _ {u : Universe} {d : Dot} (ulaws : UniverseLaws u) (laws : DotLaws d) where
  open u use {Targetable, Policy, Other, targetable_methods, policy_methods, other_methods}
  open d use {find_nodes, edges_from}

  attached :
      (ps : List Policy) (ts : List Targetable) (x : Targetable) (k : String)
      → Memᴰ x (attach u ps ts)
      → targetable_methods.get_locator x ≡ k
      → u.policies x ≡ targeting u ps k
  unfolding attach
  attached ps ts x k m named =
      let (t, _, same) = Memᴰ.of_map (attach_one u ps) ts m in
      let locator = targetable_methods.get_locator t in
      cc (
        same,
        ulaws.policies-set_policies t (policies_by_target_ref u ps locator),
        ulaws.get_locator-set_policies t (policies_by_target_ref u ps locator),
        policies_by_target_ref_lem u ps locator,
      )

  module _ (options : List (TopologyOptionsFunc u)) (t : Topology u d) (err : Option Error)
      (built : new_topology u d options ≡ some (t, err)) where
    abbrev o : TopologyOptions u
    o = apply_options u options

    built_from : build_topology u d o ≡ some (t, err)
    built_from = unfold new_topology in built

    linked :
        add_links u d
          (linkables u o)
          (base_graph u d o.objects (attach u o.policies o.targetables) o.policies)
          o.links
        ≡ some t.graph
    linked = (build_parts ulaws laws o t err built_from).0

    -- The nodes of the graph are the locators of the objects, targetables and policies given; and
    -- there is an edge exactly where a policy names the target, or where a link function gives the
    -- parent for a child of the kind that the link is for, both ends being nodes.
    pub new_topology_graph :
        ((a : String) → contains (find_nodes t.graph) a ≡ contains (all_locators u o) a)
        × ((a b : String)
            → contains (edges_from t.graph a) b ≡ (
                names_target u o.policies a b && contains (all_locators u o) b
                || link_edges u o.links (linkables u o) a b
                  && (contains (all_locators u o) a && contains (all_locators u o) b)))
    new_topology_graph =
        (linked-nodes ulaws laws o t.graph linked, linked-edges ulaws laws o t.graph linked)

    -- Every edge of the topology joins two of its nodes.
    pub new_topology-IsClosed : IsClosed d t.graph
    new_topology-IsClosed = linked-IsClosed ulaws laws o t.graph linked

    -- NewTopology reports a loop exactly when loops are not allowed and the graph has a cycle.
    pub new_topology_error :
        (err ≡ some loop_detected) ↔ ((o.allow_loops ≡ false) × ¬ IsAcyclic d t.graph)
    unfolding loop_error
    new_topology_error =
        let verdict = (build_parts ulaws laws o t err built_from).1 in
        let iff = is_dag_iff d t.graph laws new_topology-IsClosed in
        let (dag, e) = is_dag_returns d t.graph laws new_topology-IsClosed in
        elim (Bool-cases dag) [
          | inl yes_dag ↦
              let acyclic = iff.0 (e ∙ ap some yes_dag) in
              (λ loops. ground arith, λ (strict, cyclic). absurd (cyclic acyclic))
          | inr no_dag ↦ (
            λ loops. (ground arith, λ acyclic. ground (arith, iff.1 acyclic)),
            λ (strict, cyclic). ground arith,
          )
        ]

    -- Each targetable of the topology has the policies with a target reference to its locator, in
    -- their order, once for each such reference; and the keys of the topology's targetables are the
    -- locators of the targetables given.
    pub new_topology_policies :
        ((k : String) (x : Targetable)
          → lookup t.targetables k ≡ some x
          → (targetable_methods.get_locator x ≡ k) × (u.policies x ≡ targeting u o.policies k))
        × ((k : String)
            → contains (keys t.targetables) k
              ≡ contains (locators targetable_methods o.targetables) k)
    new_topology_policies =
        let parts = build_parts ulaws laws o t err built_from in
        (
          λ k x found.
              let (named, m) =
                lookup-slice_to_map targetable_methods.get_locator
                  (attach u o.policies o.targetables) k x (rw parts.2 at found) in
              (named, attached o.policies o.targetables x k m named),
          λ k. rw parts.2 (
              keys-slice_to_map targetable_methods.get_locator (attach u o.policies o.targetables) k
              ∙ ap (λ ls. contains ls k) (locators-attach ulaws laws o.policies o.targetables)),
        )
