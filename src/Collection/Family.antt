-- ===== src/Collection/Family.antt =====
-- `Parents`, `Children` and `Roots` agree with the edges of the graph and with each other.

use policy_machinery.Collection.{children, parents, Collection, parents_from, locator_of}
use policy_machinery.Types.{Universe, Object, get_locator}
use policy_machinery.Dot.{Dot, DotLaws}
use policy_machinery.Prelude.{
  List, String, Memᴰ, ◌↔◌, lookup, ◌≡◌, some, ◌∷◌, contains, [], Option, filter_map, mem-filter_map,
  arith, contains_of_mem, mem_of_contains, subst, none, refl, sym, if◌then◌else◌,
}
use policy_machinery.Dag.Cycle.{Edge}
use policy_machinery.Collection.Paths.{IsKeyed}

module _ {u : Universe} {d : Dot} (laws : DotLaws d) {T : Type 0} (c : Collection u d T) where
  open c use {topology, as_object, items}

  -- the item that an edge from the key leads from
  abbrev candidate : Object u → String → Option T
  candidate item from =
      if contains (d.edges_from topology.graph from) (get_locator item)
      then lookup items from
      else none

  parents_from-eq :
      (item : Object u) (froms : List String)
      → parents_from c item froms ≡ filter_map (candidate item) froms
  unfolding parents_from
  parents_from-eq item [] = refl
  parents_from-eq item (from ∷ froms) = ground (arith, parents_from-eq item froms)

  -- `Parents` gives the items that some edge to the object leaves.
  pub mem-parents :
      (item : Object u) (x : T)
      → Memᴰ x (parents c item)
        ↔ ((k : String) × Edge d topology.graph k (get_locator item) × (lookup items k ≡ some x))
  unfolding parents
  mem-parents item x =
      let froms = d.edge_sources topology.graph in
      (
        λ m.
            let (k, _, e) =
              (mem-filter_map (candidate item) froms x).0 (rw (parents_from-eq item froms) at m) in
            (k, ground arith, ground arith),
        λ (k, edge, found). rw (parents_from-eq item froms) (
            (mem-filter_map (candidate item) froms x).1 (
              k,
              mem_of_contains froms k
                  (laws.edge_sources-complete topology.graph k (get_locator item) edge),
              ground arith,
            )),
      )

  -- `Children` gives the items that some edge from the object reaches.
  pub mem-children :
      (item : Object u) (x : T)
      → Memᴰ x (children c item)
        ↔ ((k : String) × Edge d topology.graph (get_locator item) k × (lookup items k ≡ some x))
  unfolding children
  mem-children item x =
      let tos = d.edges_from topology.graph (get_locator item) in
      (
        λ m.
            let (k, n, e) = (mem-filter_map (lookup items) tos x).0 m in
            (k, contains_of_mem tos k n, e),
        λ (k, edge, found).
            (mem-filter_map (lookup items) tos x).1 (k, mem_of_contains tos k edge, found),
      )

  module _ (keyed : IsKeyed c) where
    -- One item is among the parents of another exactly when that one is among its children.
    pub parents_iff_children :
        (x y : T)
        → lookup items (locator_of c x) ≡ some x
        → lookup items (locator_of c y) ≡ some y
        → Memᴰ x (parents c (as_object y)) ↔ Memᴰ y (children c (as_object x))
    parents_iff_children x y found_x found_y = (
      λ m.
          let (k, edge, found) = (mem-parents (as_object y) x).0 m in
          (mem-children (as_object x) y).1 (
            locator_of c y,
            subst (λ j. Edge d topology.graph j (locator_of c y)) (sym (keyed k x found)) edge,
            found_y,
          ),
      λ m.
          let (k, edge, found) = (mem-children (as_object x) y).0 m in
          (mem-parents (as_object y) x).1 (
            locator_of c x,
            subst (λ j. Edge d topology.graph (locator_of c x) j) (sym (keyed k y found)) edge,
            found_x,
          ),
    )
