-- ===== src/Topology/Graph.antt =====
-- The nodes and the edges of a topology, and when NewTopology reports a loop.
use policy_machinery.Types.{Universe, Object, UniverseLaws}
use policy_machinery.Topology.Options.{TopologyOptions, Topology, Error}
use policy_machinery.Prelude.{
  List, String, Bool, contains_by, ◌++◌, Option, ◌==◌, ◌≡◌, ◌&&◌, ◌∷◌, contains, ap₂, some, [],
  arith, ◌∙◌, refl, ap, contains-append, Option-cases, inl, inr, ◌||◌, slice_to_map,
}
use policy_machinery.Dot.{Dot, DotLaws}
use policy_machinery.Topology.Edges.{
  locators, policy_edges, target_edges, Adds, add_policy_edges-Adds, nodes-add_objects_to_graph,
  edges-add_objects_to_graph,
}
use policy_machinery.Dag.Cycle.{IsClosed}
use policy_machinery.Prelude.{true}
use policy_machinery.Topology.Build.{
  loop_error, base_graph, add_targetables_to_graph, add_policies_to_graph, build_topology,
  add_objects_to_graph, add_links,
}
use policy_machinery.Topology.Index.{attach, linkables_of}
use policy_machinery.Topology.Links.{node_pair, link_edges, add_links-Adds}

module _ (u : Universe) where
  open u use {
    Targetable, Policy, Reference, Other, targetable_methods, policy_methods, reference_methods,
    other_methods, get_target_refs,
  }

  -- the locators of everything that the options hold
  abbrev pub all_locators : TopologyOptions u → List String
  all_locators o =
      locators other_methods o.objects
      ++ (locators targetable_methods o.targetables ++ locators policy_methods o.policies)

  -- a policy named `a` has a target reference with the locator `b`
  abbrev pub names_target : List Policy → String → String → Bool
  names_target ps a b = contains_by ps λ p.
      policy_methods.get_locator p == a
      && contains (locators reference_methods (get_target_refs p)) b

  abbrev pub linkables : TopologyOptions u → List (Object u)
  linkables o = linkables_of u o.objects (attach u o.policies o.targetables) o.policies

module _ {u : Universe} {d : Dot} (ulaws : UniverseLaws u) (laws : DotLaws d) where
  open u use {
    Targetable, Policy, Reference, Other, targetable_methods, policy_methods, reference_methods,
    other_methods, get_target_refs,
  }
  open d use {Graph, new_graph, find_nodes, edges_from}

  pub locators-attach :
      (ps : List Policy) (ts : List Targetable)
      → locators targetable_methods (attach u ps ts) ≡ locators targetable_methods ts
  unfolding attach
  locators-attach ps [] = refl
  locators-attach ps (t ∷ ts) = ap₂ ◌∷◌ (ulaws.get_locator-set_policies t _) (locators-attach ps ts)

  policy_edges-eq :
      (ps : List Policy) (g : Graph) (a b : String)
      → policy_edges u d ps g a b ≡ (names_target u ps a b && contains (find_nodes g) b)
  unfolding policy_edges target_edges
  policy_edges-eq [] g a b = refl
  policy_edges-eq (p ∷ ps) g a b = ground (arith, policy_edges-eq ps g a b)

  module _ (o : TopologyOptions u) where
    abbrev pub base : Graph
    base = base_graph u d o.objects (attach u o.policies o.targetables) o.policies

    base-nodes : (a : String) → contains (find_nodes base) a ≡ contains (all_locators u o) a
    unfolding base_graph add_targetables_to_graph add_policies_to_graph
    base-nodes a =
        let ts = attach u o.policies o.targetables in
        let g₁ = add_objects_to_graph u d other_methods new_graph o.objects in
        let g₂ = add_objects_to_graph u d targetable_methods g₁ ts in
        let g₃ = add_objects_to_graph u d policy_methods g₂ o.policies in
        ground (
          arith,
          (add_policy_edges-Adds u d laws g₃ o.policies).nodes a,
          nodes-add_objects_to_graph u d laws policy_methods g₂ o.policies a,
          nodes-add_objects_to_graph u d laws targetable_methods g₁ ts a,
          nodes-add_objects_to_graph u d laws other_methods new_graph o.objects a,
          ap (λ ns. contains ns a) laws.find_nodes-new_graph,
          ap (λ ls. contains ls a) (locators-attach o.policies o.targetables),
          contains-append (locators other_methods o.objects)
              (locators targetable_methods o.targetables ++ locators policy_methods o.policies) a,
          contains-append (locators targetable_methods o.targetables)
              (locators policy_methods o.policies) a,
        )

    base-edges :
        (a b : String)
        → contains (edges_from base a) b
          ≡ (names_target u o.policies a b && contains (all_locators u o) b)
    unfolding base_graph add_targetables_to_graph add_policies_to_graph
    base-edges a b =
        let ts = attach u o.policies o.targetables in
        let g₁ = add_objects_to_graph u d other_methods new_graph o.objects in
        let g₂ = add_objects_to_graph u d targetable_methods g₁ ts in
        let g₃ = add_objects_to_graph u d policy_methods g₂ o.policies in
        ground (
          arith,
          (add_policy_edges-Adds u d laws g₃ o.policies).edges a b,
          (add_policy_edges-Adds u d laws g₃ o.policies).nodes b,
          policy_edges-eq o.policies g₃ a b,
          base-nodes b,
          ap (λ bs. contains bs b)
              (edges-add_objects_to_graph u d laws policy_methods g₂ o.policies a
                ∙ edges-add_objects_to_graph u d laws targetable_methods g₁ ts a
                ∙ edges-add_objects_to_graph u d laws other_methods new_graph o.objects a
                ∙ laws.edges_from-new_graph a),
        )

    -- what the links make of the base graph
    module _ (g : Graph) (linked : add_links u d (linkables u o) base o.links ≡ some g) where
      links :
          Adds d base g (λ a b. link_edges u o.links (linkables u o) a b && node_pair d base a b)
      links = add_links-Adds u d laws (linkables u o) base g o.links linked

      pub linked-nodes : (a : String) → contains (find_nodes g) a ≡ contains (all_locators u o) a
      linked-nodes a = links.nodes a ∙ base-nodes a

      pub linked-edges :
          (a b : String)
          → contains (edges_from g a) b ≡ (
              names_target u o.policies a b && contains (all_locators u o) b
              || link_edges u o.links (linkables u o) a b
                && (contains (all_locators u o) a && contains (all_locators u o) b))
      unfolding node_pair
      linked-edges a b = ground (arith, links.edges a b, base-edges a b, base-nodes a, base-nodes b)

      names_target-locators :
          (ps : List Policy) (a b : String)
          → names_target u ps a b ≡ true
          → contains (locators policy_methods ps) a ≡ true
      names_target-locators [] a b h = h
      names_target-locators (p ∷ ps) a b h = ground (arith, names_target-locators ps a b)

      policy_is_node :
          (a : String)
          → contains (locators policy_methods o.policies) a ≡ true
          → contains (all_locators u o) a ≡ true
      policy_is_node a h = ground (
        arith,
        contains-append (locators other_methods o.objects)
            (locators targetable_methods o.targetables ++ locators policy_methods o.policies) a,
        contains-append (locators targetable_methods o.targetables)
            (locators policy_methods o.policies) a,
      )

      pub linked-IsClosed : IsClosed d g
      linked-IsClosed = record {
        source = λ a b e. ground (
          arith,
          linked-nodes a,
          linked-edges a b,
          names_target-locators o.policies a b,
          policy_is_node a,
        );
        target = λ a b e. ground (arith, linked-nodes b, linked-edges a b);
      }

    module _ (t : Topology u d) (err : Option Error)
        (built : build_topology u d o ≡ some (t, err)) where
      pub build_parts :
          (add_links u d (linkables u o) base o.links ≡ some t.graph)
          × (loop_error u d o.allow_loops t.graph ≡ some err)
          × (t.targetables
              ≡ slice_to_map targetable_methods.get_locator (attach u o.policies o.targetables))
      unfolding build_topology
      build_parts = elim (Option-cases (add_links u d (linkables u o) base o.links)) [
        | inl panics ↦ ground arith
        | inr (g, e) ↦ elim (Option-cases (loop_error u d o.allow_loops g)) [
          | inl stuck ↦ ground arith
          | inr (loops, e') ↦ ground arith
        ]
      ]
