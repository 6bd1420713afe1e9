-- ===== src/Topology/Edges.antt =====
-- Which nodes and edges the steps of NewTopology add to a graph.
use policy_machinery.Types.{ObjectMethods, Universe}
use policy_machinery.Prelude.{
  List, String, map, Bool, contains, ◌==◌, if◌then◌else◌, arith, contains_by, ◌≡◌, ◌&&◌, ap,
  Bool-cases, ◌||◌, ◌∷◌, contains-append, ap₂, [], ◌∙◌, inl, eq_iff, inr, refl,
}
use policy_machinery.Dot.{Dot, DotLaws}
use policy_machinery.Topology.Build.{add_objects_to_graph, add_target_edges, add_policy_edges}

abbrev pub locators : {A : Type 0} → ObjectMethods A → List A → List String
locators methods xs = map methods.get_locator xs

module _ (d : Dot) where
  open d use {Graph, find_nodes, edges_from}

  -- the nodes stay, and the edges are the old ones and those of `p`
  pub record Adds (g g' : Graph) (p : String → String → Bool) : Type 0 where
    pub nodes : (a : String) → contains (find_nodes g') a ≡ contains (find_nodes g) a
    pub edges :
        (a b : String) → contains (edges_from g' a) b ≡ (contains (edges_from g a) b || p a b)

module _ (u : Universe) (d : Dot) where
  open u use {
    Targetable, Policy, Reference, Other, targetable_methods, policy_methods, reference_methods,
    other_methods, get_target_refs,
  }
  open d use {Graph, new_graph, node, edge, find_nodes, find_node_by_id, edges_from}

  -- `from` is `a`, and one of the references has the locator `b` of a node
  unfoldable pub target_edges : String → List Reference → Graph → String → String → Bool
  target_edges from refs g a b =
      from == a && (contains (locators reference_methods refs) b && contains (find_nodes g) b)

  -- some policy that is named `a` targets the node `b`
  unfoldable pub policy_edges : List Policy → Graph → String → String → Bool
  policy_edges ps g a b =
      contains_by ps (λ p. target_edges (policy_methods.get_locator p) (get_target_refs p) g a b)

module _ (u : Universe) (d : Dot) (laws : DotLaws d) where
  open u use {
    Targetable, Policy, Reference, Other, targetable_methods, policy_methods, reference_methods,
    other_methods, get_target_refs,
  }
  open d use {Graph, new_graph, node, edge, find_nodes, find_node_by_id, edges_from}

  pub edge-Adds :
      (g : Graph) (from to : String) → Adds d g (edge g from to) (λ a b. from == a && to == b)
  edge-Adds g from to = record {
    nodes = λ a. ap (λ ns. contains ns a) (laws.find_nodes-edge g from to);
    edges = λ a b. ground (
      arith,
      ap (λ bs. contains bs b) (laws.edges_from-edge g from to a),
      contains-append (edges_from g a) (to ∷ []) b,
      eq_iff from a,
    );
  }

  -- the nodes are those of the graph and the locators of the objects; the edges stay
  pub nodes-add_objects_to_graph :
      {A : Type 0} (methods : ObjectMethods A) (g : Graph) (os : List A) (a : String)
      → contains (find_nodes (add_objects_to_graph u d methods g os)) a
        ≡ (contains (find_nodes g) a || contains (locators methods os) a)
  unfolding add_objects_to_graph
  nodes-add_objects_to_graph methods g [] a = ground arith
  nodes-add_objects_to_graph methods g (o ∷ os) a = ground (
    arith,
    nodes-add_objects_to_graph methods (node g (methods.get_locator o)) os a,
    laws.find_nodes-node g (methods.get_locator o) a,
  )

  pub edges-add_objects_to_graph :
      {A : Type 0} (methods : ObjectMethods A) (g : Graph) (os : List A) (a : String)
      → edges_from (add_objects_to_graph u d methods g os) a ≡ edges_from g a
  unfolding add_objects_to_graph
  edges-add_objects_to_graph methods g [] a = refl
  edges-add_objects_to_graph methods g (o ∷ os) a =
      edges-add_objects_to_graph methods (node g (methods.get_locator o)) os a
      ∙ laws.edges_from-node g (methods.get_locator o) a

  -- one guarded edge from `from`, as the loop over the target references adds it
  guarded-Adds :
      (g : Graph) (from to : String)
      → Adds d g
          (if find_node_by_id g to then edge g from to else g)
          (λ a b. from == a && (to == b && contains (find_nodes g) to))
  guarded-Adds g from to = elim (Bool-cases (find_node_by_id g to)) [
    | inl found ↦ rw found (record {
      nodes = (edge-Adds g from to).nodes;
      edges = λ a b. ground (arith, (edge-Adds g from to).edges a b, laws.find_node_by_id_lem g to);
    })
    | inr missing ↦
        rw missing (record {
          nodes = λ a. refl;
          edges = λ a b. ground (arith, laws.find_node_by_id_lem g to);
        })
  ]

  add_target_edges-Adds :
      (from : String) (g : Graph) (refs : List Reference)
      → Adds d g (add_target_edges u d from g refs) (target_edges u d from refs g)
  unfolding add_target_edges target_edges
  add_target_edges-Adds from g [] = record { nodes = λ a. refl; edges = λ a b. ground arith }
  add_target_edges-Adds from g (ref ∷ refs) =
      let to = reference_methods.get_locator ref in
      let first = guarded-Adds g from to in
      let rest =
        add_target_edges-Adds from (if find_node_by_id g to then edge g from to else g) refs in
      record {
        nodes = λ a. rest.nodes a ∙ first.nodes a;
        edges = λ a b. ground (arith, rest.edges a b, first.edges a b, first.nodes b, eq_iff to b);
      }

  target_edges-nodes :
      (from : String) (refs : List Reference) (g g' : Graph) (a b : String)
      → contains (find_nodes g') b ≡ contains (find_nodes g) b
      → target_edges u d from refs g' a b ≡ target_edges u d from refs g a b
  unfolding target_edges
  target_edges-nodes from refs g g' a b e = rw e

  policy_edges-nodes :
      (ps : List Policy) (g g' : Graph) (a b : String)
      → contains (find_nodes g') b ≡ contains (find_nodes g) b
      → policy_edges u d ps g' a b ≡ policy_edges u d ps g a b
  unfolding policy_edges
  policy_edges-nodes [] g g' a b e = refl
  policy_edges-nodes (p ∷ ps) g g' a b e =
      ap₂ ◌||◌ (target_edges-nodes (policy_methods.get_locator p) (get_target_refs p) g g' a b e)
        (policy_edges-nodes ps g g' a b e)

  pub add_policy_edges-Adds :
      (g : Graph) (ps : List Policy) → Adds d g (add_policy_edges u d g ps) (policy_edges u d ps g)
  unfolding add_policy_edges policy_edges
  add_policy_edges-Adds g [] = record { nodes = λ a. refl; edges = λ a b. ground arith }
  add_policy_edges-Adds g (p ∷ ps) =
      let from = policy_methods.get_locator p in
      let g' = add_target_edges u d from g (get_target_refs p) in
      let first = add_target_edges-Adds from g (get_target_refs p) in
      let rest = add_policy_edges-Adds g' ps in
      record {
        nodes = λ a. rest.nodes a ∙ first.nodes a;
        edges = λ a b. ground (
          arith,
          rest.edges a b,
          first.edges a b,
          policy_edges-nodes ps g g' a b (first.nodes b),
        );
      }
