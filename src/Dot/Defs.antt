-- ===== src/Dot/Defs.antt =====
-- The directed graphs of `github.com/emicklei/dot`, which machinery/topology.go stores its nodes
-- and edges in. The package is not part of the repository: its operations are a parameter, with the
-- documented behaviour that the topology relies on as laws.

use policy_machinery.Prelude.{
  String, ◌≡◌, Bool, true, ◌||◌, List, [], ◌++◌, ◌∷◌, contains, distinct, ◌==◌, if◌then◌else◌,
}

-- Nodes are named by their identifiers.
pub record Dot : Type 1 where
  pub Graph : Type 0
  -- dot.NewGraph(dot.Directed)
  pub new_graph : Graph
  -- g.Node(id): the node of that identifier, created where there is none
  pub node : Graph → String → Graph
  -- g.Edge(from, to): one more edge, parallel edges included
  pub edge : Graph → String → String → Graph
  -- g.FindNodes()
  pub find_nodes : Graph → List String
  -- g.FindNodeById(id), whether the node is found
  pub find_node_by_id : Graph → String → Bool
  -- the keys of g.EdgesMap(), in the order of an iteration
  pub edge_sources : Graph → List String
  -- the targets of g.EdgesMap()[id], oldest edge first
  pub edges_from : Graph → String → List String

pub record DotLaws (d : Dot) : Type 0 where
  pub find_nodes-new_graph : d.find_nodes d.new_graph ≡ []
  pub find_nodes-node :
      (g : d.Graph) (id a : String)
      → contains (d.find_nodes (d.node g id)) a ≡ (id == a || contains (d.find_nodes g) a)
  pub find_node_by_id_lem :
      (g : d.Graph) (a : String) → d.find_node_by_id g a ≡ contains (d.find_nodes g) a
  pub find_nodes-edge :
      (g : d.Graph) (from to : String) → d.find_nodes (d.edge g from to) ≡ d.find_nodes g
  pub edges_from-new_graph : (a : String) → d.edges_from d.new_graph a ≡ []
  pub edges_from-node :
      (g : d.Graph) (id a : String) → d.edges_from (d.node g id) a ≡ d.edges_from g a
  pub edges_from-edge :
      (g : d.Graph) (from to a : String)
      → d.edges_from (d.edge g from to) a
        ≡ (if from == a then d.edges_from g a ++ to ∷ [] else d.edges_from g a)
  pub edge_sources-distinct : (g : d.Graph) → distinct (d.edge_sources g) ≡ true
  -- every node that an edge leaves is a key of the edge map
  pub edge_sources-complete :
      (g : d.Graph) (a b : String)
      → contains (d.edges_from g a) b ≡ true
      → contains (d.edge_sources g) a ≡ true
