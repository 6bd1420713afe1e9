-- ===== src/Dag/Tests.antt =====
-- `is_dag` on small graphs.
use policy_machinery.Prelude.{◌≡◌, refl, true, false, some, none, [], ◌∷◌}
use policy_machinery.Dot.Assoc.{assoc_dot, AssocGraph}
use policy_machinery.Dot.{Dot}
use policy_machinery.Dag.{is_dag, loop, build, visit, relax, relax_all}
open assoc_dot use {new_graph, node, edge}

abbrev diamond : AssocGraph
diamond =
    edge
      (edge
        (edge (edge (edge (node (node (node (node new_graph "a") "b") "c") "d") "a" "b") "a" "c")
          "b" "d")
        "c" "d")
      "c" "d"

-- a library that would keep an edge from "a" to an identifier that is no node
abbrev stray_dot : Dot
stray_dot = record assoc_dot { edges_from = λ g from. "b" ∷ [] }

is_dag-diamond : is_dag assoc_dot diamond ≡ some true
unfolding is_dag loop build visit relax relax_all
is_dag-diamond = refl

is_dag-looped : is_dag assoc_dot (edge diamond "d" "b") ≡ some false
unfolding is_dag loop build visit relax relax_all
is_dag-looped = refl

-- an edge to an identifier that is no node is a nil pointer
is_dag-panics : is_dag stray_dot (node new_graph "a") ≡ none
unfolding is_dag loop build visit relax relax_all
is_dag-panics = refl
