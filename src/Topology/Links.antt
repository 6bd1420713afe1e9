-- ===== src/Topology/Links.antt =====
-- Which edges the link functions add to a graph.
use policy_machinery.Types.{Universe, Object, get_locator, same_kind, group_kind}
use policy_machinery.Dot.{Dot, DotLaws}
use policy_machinery.Prelude.{
  String, List, Option, Bool, contains, false, contains_by, ◌&&◌, ◌≡◌, none, [], some, filter,
  arith, ◌==◌, Bool-cases, ◌∙◌, ◌∷◌, Option-cases, inl, refl, inr, eq_iff,
}
use policy_machinery.Topology.Build.{add_edge_to_graph, link_parents, link_children, add_links}
use policy_machinery.Topology.Options.{LinkFunc}
use policy_machinery.Topology.Edges.{Adds, edge-Adds}

module _ (u : Universe) where
  -- a parent that is not nil and has the locator `a`
  unfoldable pub is_parent : String → Option (Object u) → Bool
  is_parent a none = false
  is_parent a (some p) = get_locator p == a

  -- the parents that a link gives for a child, none where it panics
  abbrev pub parents_of : LinkFunc u → Object u → List (Option (Object u))
  parents_of link child = elim (link.func child) [ none ↦ [] | some ps ↦ ps ]

  -- the link gives a parent named `a` to some child named `b`
  unfoldable pub link_joins : LinkFunc u → List (Object u) → String → String → Bool
  link_joins link cs a b =
      contains_by cs (λ c. get_locator c == b && contains_by (parents_of link c) (is_parent a))

  -- some link gives a parent named `a` to some linkable named `b` of its kind
  unfoldable pub link_edges : List (LinkFunc u) → List (Object u) → String → String → Bool
  link_edges links linkables a b =
      contains_by links
        (λ link. link_joins link (filter (λ l. same_kind (group_kind l) link.to) linkables) a b)

module _ (d : Dot) where
  open d use {Graph, find_nodes}

  -- both are nodes
  unfoldable pub node_pair : Graph → String → String → Bool
  node_pair g a b = contains (find_nodes g) a && contains (find_nodes g) b

module _ (u : Universe) (d : Dot) (laws : DotLaws d) where
  open d use {Graph, edge, find_nodes, find_node_by_id}

  add_edge_to_graph-Adds :
      (g : Graph) (parent child : Object u)
      → Adds d g
          (add_edge_to_graph u d g parent child)
          (λ a b. get_locator child == b && (is_parent u a (some parent) && node_pair d g a b))
  unfolding add_edge_to_graph is_parent node_pair
  add_edge_to_graph-Adds g parent child =
      elim (Bool-cases
        (find_node_by_id g (get_locator parent) && find_node_by_id g (get_locator child))) [
          | inl found ↦ rw found (record {
            nodes = (edge-Adds u d laws g (get_locator parent) (get_locator child)).nodes;
            edges = λ a b. ground (
              arith,
              (edge-Adds u d laws g (get_locator parent) (get_locator child)).edges a b,
              laws.find_node_by_id_lem g (get_locator parent),
              laws.find_node_by_id_lem g (get_locator child),
              eq_iff (get_locator parent) a,
              eq_iff (get_locator child) b,
            );
          })
          | inr missing ↦ rw missing (record {
            nodes = λ a. refl;
            edges = λ a b. ground (
              arith,
              laws.find_node_by_id_lem g (get_locator parent),
              laws.find_node_by_id_lem g (get_locator child),
              eq_iff (get_locator parent) a,
              eq_iff (get_locator child) b,
            );
          })
        ]

  node_pair-nodes :
      (g g' : Graph) (a b : String)
      → ((x : String) → contains (find_nodes g') x ≡ contains (find_nodes g) x)
      → node_pair d g' a b ≡ node_pair d g a b
  unfolding node_pair
  node_pair-nodes g g' a b e = rw (e a, e b)

  link_parents-Adds :
      (child : Object u) (g : Graph) (ps : List (Option (Object u)))
      → Adds d g
          (link_parents u d child g ps)
          (λ a b. get_locator child == b && (contains_by ps (is_parent u a) && node_pair d g a b))
  unfolding link_parents is_parent
  link_parents-Adds child g [] = record { nodes = λ a. refl; edges = λ a b. ground arith }
  link_parents-Adds child g (none ∷ ps) =
      let rest = link_parents-Adds child g ps in
      record { nodes = rest.nodes; edges = λ a b. unfold is_parent in rest.edges a b }
  link_parents-Adds child g (some p ∷ ps) =
      let g' = add_edge_to_graph u d g p child in
      let first = add_edge_to_graph-Adds g p child in
      let rest = link_parents-Adds child g' ps in
      record {
        nodes = λ a. rest.nodes a ∙ first.nodes a;
        edges = λ a b.
            ground (arith, rest.edges a b, first.edges a b, node_pair-nodes g g' a b first.nodes);
      }

  link_children-Adds :
      (link : LinkFunc u) (g g' : Graph) (cs : List (Object u))
      → link_children u d link g cs ≡ some g'
      → Adds d g g' (λ a b. link_joins u link cs a b && node_pair d g a b)
  unfolding link_children link_joins
  link_children-Adds link g g' [] h = record {
    nodes = λ a. ground arith;
    edges = λ a b. ground arith;
  }
  link_children-Adds link g g' (c ∷ cs) h = elim (Option-cases (link.func c)) [
    | inl panics ↦ absurd (none-ne (rw (panics, link_children) at h))
    | inr (ps, e) ↦
        let g₁ = link_parents u d c g ps in
        let first = link_parents-Adds c g ps in
        let rest = link_children-Adds link g₁ g' cs (rw (e, link_children) at h) in
        record {
          nodes = λ a. rest.nodes a ∙ first.nodes a;
          edges = λ a b.
              ground
                (arith, e, rest.edges a b, first.edges a b, node_pair-nodes g g₁ a b first.nodes);
        }
  ]
    where
      none-ne : {x : Graph} → ◌≡◌ {A = Option Graph} none (some x) → ⊥
      none-ne q = cc

  pub add_links-Adds :
      (linkables : List (Object u)) (g g' : Graph) (links : List (LinkFunc u))
      → add_links u d linkables g links ≡ some g'
      → Adds d g g' (λ a b. link_edges u links linkables a b && node_pair d g a b)
  unfolding add_links link_edges
  add_links-Adds linkables g g' [] h = record {
    nodes = λ a. ground arith;
    edges = λ a b. ground arith;
  }
  add_links-Adds linkables g g' (link ∷ links) h =
      let cs = filter (λ l. same_kind (group_kind l) link.to) linkables in
      elim (Option-cases (link_children u d link g cs)) [
        | inl panics ↦ absurd (none-ne (rw (panics, add_links) at h))
        | inr (g₁, e) ↦
            let first = link_children-Adds link g g₁ cs e in
            let rest = add_links-Adds linkables g₁ g' links (rw (e, add_links) at h) in
            record {
              nodes = λ a. rest.nodes a ∙ first.nodes a;
              edges = λ a b.
                  ground
                    (arith, rest.edges a b, first.edges a b, node_pair-nodes g g₁ a b first.nodes);
            }
      ]
    where
      none-ne : {x : Graph} → ◌≡◌ {A = Option Graph} none (some x) → ⊥
      none-ne q = cc
