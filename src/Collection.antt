-- ===== src/Collection.antt =====
-- The collections of a topology, of machinery/topology.go: items by locator, and the operations
-- that walk the graph from item to item.
pub mod Dfs
pub mod Paths
pub mod Family
pub mod Keyed
use policy_machinery.Types.{Universe, Object, get_locator, targetable, policy, other}
use policy_machinery.Prelude.{
  List, String, Option, Bool, ◌∷◌, filter, ℕ, if◌then◌else◌, [], put, true, values, not, filter_map,
  is_empty, ◌==◌, suc, some, false, contains, lookup, length, ◌++◌, none, zero,
}
use policy_machinery.Dot.{Dot}
use policy_machinery.Topology.{Topology}

-- `collection[T]`, for the values of T, which `as_object` reads as objects
pub record Collection (u : Universe) (d : Dot) (T : Type 0) : Type 0 where
  pub topology : Topology u d
  pub as_object : T → Object u
  pub items : List (String × T)

module _ {u : Universe} where
  -- one loop of `All`: the entries are written over those of the same key
  pub put_objects :
      {T : Type 0}
      → (T → Object u)
      → List (String × Object u)
      → List (String × T)
      → List (String × Object u)
  put_objects as_object m [] = m
  put_objects as_object m ((k, v) ∷ entries) = put_objects as_object (put k (as_object v) m) entries

module _ {u : Universe} {d : Dot} where
  -- `Topology.Targetables`, and the method of the same name of a collection
  unfoldable pub targetables_of : Topology u d → Collection u d u.Targetable
  targetables_of t = record { topology = t; as_object = targetable; items = t.targetables }

  -- `Topology.Policies`
  pub policies_of : Topology u d → Collection u d u.Policy
  policies_of t = record { topology = t; as_object = policy; items = t.policies }

  -- `Topology.Objects`
  pub objects_of : Topology u d → Collection u d u.Other
  objects_of t = record { topology = t; as_object = other; items = t.objects }

  -- `Topology.All`
  pub all_of : Topology u d → Collection u d (Object u)
  unfolding put_objects
  all_of t = record {
    topology = t;
    as_object = λ o. o;
    items =
        put_objects policy (put_objects targetable (put_objects other [] t.objects) t.targetables)
          t.policies;
  }

module _ {u : Universe} {d : Dot} {T : Type 0} (c : Collection u d T) where
  open c use {topology, as_object, items}

  abbrev pub locator_of : T → String
  locator_of x = get_locator (as_object x)

  abbrev passes : List (Object u → Bool) → T → Bool
  passes [] x = true
  passes (f ∷ fs) x = if f (as_object x) then passes fs x else false

  -- `Items`
  pub items_of : List (Object u → Bool) → List T
  items_of filters = filter (passes filters) (values items)

  -- the loop of `Parents` over the edge map
  pub parents_from : Object u → List String → List T
  parents_from item [] = []
  parents_from item (from ∷ froms) =
      let rest = parents_from item froms in
      if not (contains (d.edges_from topology.graph from) (get_locator item))
      then rest
      else elim (lookup items from) [ none ↦ rest | some parent ↦ parent ∷ rest ]

  -- `Parents`
  pub parents : Object u → List T
  unfolding parents_from
  parents item = parents_from item (d.edge_sources topology.graph)

  -- `Children`
  pub children : Object u → List T
  children item = filter_map (lookup items) (d.edges_from topology.graph (get_locator item))

  -- `Roots`
  pub roots : List T
  unfolding parents
  roots = filter (λ item. is_empty (parents (as_object item))) (values items)

-- What a depth-first search writes to: the paths found, and the marks of the nodes on the way.
pub record Search (T : Type 0) : Type 0 where
  pub paths : List (List (Option T))
  pub visited : String → Bool

abbrev pub mark : (String → Bool) → String → Bool → String → Bool
mark visited k b a = if k == a then b else visited a

-- the loop over the children, each searched in turn
abbrev pub each : {T : Type 0} → (T → Search T → Search T) → List T → Search T → Search T
each f [] s = s
each f (x ∷ xs) s = each f xs (f x s)

module _ {u : Universe} {d : Dot} {T : Type 0} (c : Collection u d T) where
  open c use {as_object, items}

  -- The search, on fuel for its depth. An item that the collection lacks is nil, `none`, in a path.
  pub dfs : ℕ → Object u → Object u → List (Option T) → Search T → Search T
  dfs zero current to path s = s
  dfs (suc fuel) current to path s =
      let locator = get_locator current in
      elim (s.visited locator) [
        | true ↦ s
        | false ↦
            let path' = path ++ lookup items locator ∷ [] in
            let entered = record s { visited = mark s.visited locator true } in
            let searched : Search T = elim (locator == get_locator to) [
              | true ↦ record entered { paths = entered.paths ++ path' ∷ [] }
              | false ↦
                  each (λ child st. dfs fuel (as_object child) to path' st) (children c current)
                    entered
            ] in
            record searched { visited = mark searched.visited locator false }
      ]

  -- `Paths`: a path repeats no node, so it is no longer than the items and the node it starts from
  pub paths : Option (Object u) → Option (Object u) → List (List (Option T))
  unfolding dfs
  paths none to = []
  paths (some from) none = []
  paths (some from) (some to) =
      (dfs (suc (length items)) from to [] (record { paths = []; visited = λ _. false })).paths
