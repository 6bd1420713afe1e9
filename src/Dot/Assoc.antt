-- ===== src/Dot/Assoc.antt =====
-- A graph that meets the laws of Dot.antt: the identifiers in the order of creation, and for each
-- source its targets. The examples and tests run on it.
use policy_machinery.Prelude.{
  ◌∙◌, refl, ◌||◌, distinct, contains-append, String, ◌≡◌, true, List, [], ◌∷◌, ◌++◌, arith,
  contains, eq_iff, ◌==◌, if◌then◌else◌,
}
use policy_machinery.Dot.Defs.{Dot}
use policy_machinery.Dot.{DotLaws}

pub record AssocGraph : Type 0 where
  nodes : List String
  edges : List (String × List String)

abbrev keys : List (String × List String) → List String
keys [] = []
keys ((a, bs) ∷ m) = a ∷ keys m

abbrev dedupe : List String → List String
dedupe [] = []
dedupe (x ∷ xs) = let rest = dedupe xs in if contains rest x then rest else x ∷ rest

abbrev targets : List (String × List String) → String → List String
targets [] k = []
targets ((a, bs) ∷ m) k = if a == k then bs else targets m k

abbrev insert : List (String × List String) → String → String → List (String × List String)
insert [] from to = (from, to ∷ []) ∷ []
insert ((a, bs) ∷ m) from to =
    let rest = insert m from to in if a == from then (a, bs ++ to ∷ []) ∷ m else (a, bs) ∷ rest

abbrev pub assoc_dot : Dot
assoc_dot = record {
  Graph = AssocGraph;
  new_graph = record { nodes = []; edges = [] };
  node = λ g id. if contains g.nodes id then g else record g { nodes = g.nodes ++ id ∷ [] };
  edge = λ g from to. record g { edges = insert g.edges from to };
  find_nodes = λ g. g.nodes;
  find_node_by_id = λ g id. contains g.nodes id;
  edge_sources = λ g. dedupe (keys g.edges);
  edges_from = λ g a. targets g.edges a;
}

targets-insert :
    (m : List (String × List String)) (from to a : String)
    → targets (insert m from to) a ≡ (if from == a then targets m a ++ to ∷ [] else targets m a)
targets-insert [] from to a = ground (arith, eq_iff from a)
targets-insert ((b, bs) ∷ m) from to a =
    ground (arith, targets-insert m from to a, eq_iff b from, eq_iff b a, eq_iff from a)

contains-dedupe : (xs : List String) (a : String) → contains (dedupe xs) a ≡ contains xs a
contains-dedupe [] a = refl
contains-dedupe (x ∷ xs) a = ground (arith, contains-dedupe xs a, contains-dedupe xs x, eq_iff x a)

distinct-dedupe : (xs : List String) → distinct (dedupe xs) ≡ true
distinct-dedupe [] = refl
distinct-dedupe (x ∷ xs) = ground (arith, distinct-dedupe xs)

keys-targets :
    (m : List (String × List String)) (a b : String)
    → contains (targets m a) b ≡ true
    → contains (keys m) a ≡ true
keys-targets [] a b h = h
keys-targets ((c, bs) ∷ m) a b h = ground (arith, keys-targets m a b)

find_nodes-node_lem :
    (ns : List String) (id a : String)
    → contains (if contains ns id then ns else ns ++ id ∷ []) a ≡ (id == a || contains ns a)
find_nodes-node_lem ns id a = ground (arith, contains-append ns (id ∷ []) a, eq_iff id a)

pub assoc_laws : DotLaws assoc_dot
assoc_laws = record {
  find_nodes-new_graph = refl;
  find_nodes-node = λ g id a. ground (arith, find_nodes-node_lem g.nodes id a);
  find_node_by_id_lem = λ g a. refl;
  find_nodes-edge = λ g from to. refl;
  edges_from-new_graph = λ a. refl;
  edges_from-node = λ g id a. ground arith;
  edges_from-edge = λ g from to a. targets-insert g.edges from to a;
  edge_sources-distinct = λ g. distinct-dedupe (keys g.edges);
  edge_sources-complete = λ g a b h. contains-dedupe (keys g.edges) a ∙ keys-targets g.edges a b h;
}
