-- ===== src/Dag.antt =====
-- `isDAG` of machinery/topology.go: Kahn's algorithm over the graph of a topology.
pub mod Cycle
pub mod Finite
mod Visit
mod Loop
pub mod Correct
mod Tests
use policy_machinery.Prelude.{
  Option, none, some, ℕ, zero, suc, ◌+◌, String, Bool, true, false, not, ◌&&◌, List, [], ◌∷◌, ◌++◌,
  ◌==◌, length, filter, is_empty, contains, remove, if◌then◌else◌,
}
use policy_machinery.Dot.{Dot}

-- The nodes of the simplified graph: for each identifier the keys of `parents`, and the children
-- that are left. `queue` is the slice `s`.
pub record Kahn : Type 0 where
  pub parents : String → List String
  pub children : String → List String
  pub queue : List String

abbrev pub update : (String → List String) → String → List String → String → List String
update f k v a = if k == a then v else f a

-- the body of the inner loop: the edge from `n` to its first child `m` is taken away
unfoldable pub relax : String → String → Kahn → Kahn
relax n m st =
    let left = remove n (st.parents m) in
    record st {
      parents = update st.parents m left;
      queue = if is_empty left then st.queue ++ m ∷ [] else st.queue;
    }

-- the inner loop, over the children of `n`
unfoldable pub relax_all : String → List String → Kahn → Kahn
relax_all n [] st = st
relax_all n (m ∷ ms) st = relax_all n ms (relax n m st)

-- one round of the outer loop, after `n` left the head of the queue
unfoldable pub visit : String → Kahn → Kahn
visit n st =
    let st' = relax_all n (st.children n) st in record st' { children = update st'.children n [] }

-- `nodeIndex` has the identifier of each child
abbrev pub all_indexed : List String → List String → Bool
all_indexed nodes [] = true
all_indexed nodes (m ∷ ms) = contains nodes m && all_indexed nodes ms

-- The outer loop, on fuel. A child that is no node is a nil pointer, and the inner loop panics (`none`)
-- when it gets to it.
unfoldable pub loop : List String → ℕ → Kahn → Option Kahn
loop nodes zero st = some st
loop nodes (suc fuel) st = elim st.queue [
  | [] ↦ some st
  | n ∷ s ↦ elim (all_indexed nodes (st.children n)) [
    | true ↦ loop nodes fuel (visit n (record st { queue = s }))
    | false ↦ none
  ]
]

module _ (d : Dot) where
  open d use {Graph, find_nodes, edge_sources, edges_from}

  abbrev pub parents_of : Graph → String → List String
  parents_of g a = filter (λ from. contains (edges_from g from) a) (edge_sources g)

  -- `build`, and the roots that the queue starts with. Nodes are told by their identifiers; a child whose
  -- identifier is that of no node stands for the nil pointer that `nodeIndex` gives.
  unfoldable pub build : Graph → Kahn
  build g = record {
    parents = parents_of g;
    children = edges_from g;
    queue = filter (λ a. is_empty (parents_of g a)) (find_nodes g);
  }

  -- the final pass over the nodes: children are left where the queue never got to
  abbrev pub exhausted : (String → List String) → List String → Bool
  exhausted children [] = true
  exhausted children (n ∷ ns) = is_empty (children n) && exhausted children ns

-- the edges that are left, counted over the given nodes
abbrev pub remaining : (String → List String) → List String → ℕ
remaining children [] = 0
remaining children (n ∷ ns) = length (children n) + remaining children ns

module _ (d : Dot) where
  open d use {Graph, find_nodes}

  -- No more rounds than nodes and edges: see `loop-queue` in Dag/Loop.antt.
  abbrev pub enough : Graph → ℕ
  enough g = length (build d g).queue + remaining (build d g).children (find_nodes g)

  -- `none` is a panic
  unfoldable pub is_dag : Graph → Option Bool
  is_dag g = elim (loop (find_nodes g) (enough g) (build d g)) [
    | none ↦ none
    | some st ↦ some (exhausted d st.children (find_nodes g))
  ]
