-- ===== src/Collection/Paths.antt =====
-- `Paths` finds exactly the walks from item to item that repeat no node.
use mathlib.Core.List.Memᴰ
use policy_machinery.Types.{Universe, Object, get_locator}
use policy_machinery.Dot.{Dot}
use policy_machinery.Collection.{Collection, children, locator_of, mark, paths, Search}
use policy_machinery.Prelude.{
  String, lookup, List, Memᴰ, ◌≡◌, contains, Option, some, ◌∷◌, Bool, [], distinct, false, true,
  ◌++◌, keys, map, mem-filter_map, arith, sym, eq_iff, subst, ◌∙◌, contains_of_mem, append_assoc,
  lookup-keys, ℕ, mem_of_contains, length, suc, Bool-cases, ◌≤◌, ◌==◌, inl, ap, inr, mem-flat_map,
  zero, refl, ◌↔◌, length-le_of_distinct, length-keys,
}
use policy_machinery.Collection.Dfs.{enumerate, dfs-eq}

module _ {u : Universe} {d : Dot} {T : Type 0} (c : Collection u d T) where
  open c use {topology, as_object, items}

  -- every item stands under its own locator
  abbrev pub IsKeyed : Type 0
  IsKeyed = (k : String) (x : T) → lookup items k ≡ some x → locator_of c x ≡ k

  -- The locators of a walk along edges to `to`; all of them but the first are keys of the items.
  pub data IsPath (to : String) : String → List String → Type 0 where
    arrived : {a : String} → a ≡ to → IsPath to a (a ∷ [])
    onward :
        {a b : String} {locators : List String}
        → contains (d.edges_from topology.graph a) b ≡ true
        → contains (keys items) b ≡ true
        → IsPath to b locators
        → IsPath to a (a ∷ locators)

  module _ (keyed : IsKeyed) where
    mem-children :
        (current : Object u) (child : T)
        → Memᴰ child (children c current)
        → (contains (d.edges_from topology.graph (get_locator current)) (locator_of c child) ≡ true)
          × (contains (keys items) (locator_of c child) ≡ true)
    unfolding children
    mem-children current child m =
        let (b, n, e) =
          (mem-filter_map (lookup items) (d.edges_from topology.graph (get_locator current))
              child).0
            m in
        let same = sym (keyed b child e) in
        (
          subst (λ k. contains (d.edges_from topology.graph (get_locator current)) k ≡ true) same
              (contains_of_mem _ b n),
          subst (λ k. contains (keys items) k ≡ true) same ((lookup-keys items b).1 (child, e)),
        )

    -- what the search finds below `current` is a walk over unmarked nodes that repeats none
    abbrev Found :
        Object u → Object u → List (Option T) → (String → Bool) → List (Option T) → Type 0
    Found current to path visited p =
        (locators : List String) × IsPath (get_locator to) (get_locator current) locators
        × (distinct locators ≡ true)
        × ((a : String) → contains locators a ≡ true → visited a ≡ false)
        × (p ≡ path ++ map (lookup items) locators)

    sound_step :
        (current to : Object u) (child : T) (path : List (Option T)) (visited : String → Bool)
        (p : List (Option T))
        → visited (get_locator current) ≡ false
        → Memᴰ child (children c current)
        → Found
            (as_object child)
            to
            (path ++ lookup items (get_locator current) ∷ [])
            (mark visited (get_locator current) true)
            p
        → Found current to path visited p
    sound_step current to child path visited p fresh m (locators, walk, once, clear, e) =
        let here = get_locator current in
        let (edge, key) = mem-children current child m in
        (
          here ∷ locators,
          onward edge key walk,
          ground (arith, clear here, eq_iff here here),
          λ a n. ground (arith, clear a, eq_iff here a),
          e ∙ append_assoc path (lookup items here ∷ []) (map (lookup items) locators),
        )

    sound :
        (fuel : ℕ) (current to : Object u) (path : List (Option T)) (visited : String → Bool)
        (p : List (Option T))
        → Memᴰ p (enumerate c fuel current to path visited)
        → Found current to path visited p
    unfolding enumerate
    sound zero current to path visited p m = absurd (Memᴰ.not-nil m)
    sound (suc fuel) current to path visited p m =
        let here = get_locator current in
        let path' = path ++ lookup items here ∷ [] in
        elim (Bool-cases (visited here)) [
          | inl seen ↦ absurd (Memᴰ.not-nil (rw (seen, enumerate) at m))
          | inr fresh ↦ elim (Bool-cases (here == get_locator to)) [
            | inl here_to ↦
                let e = Memᴰ.eq_of_singleton (rw (fresh, here_to, enumerate) at m) in
                (
                  here ∷ [],
                  arrived ((eq_iff here (get_locator to)).0 here_to),
                  refl,
                  λ a n. ground (arith, eq_iff here a),
                  e,
                )
            | inr away ↦
                let (child, n, k) =
                  (mem-flat_map
                      (λ x. enumerate c fuel (as_object x) to path' (mark visited here true))
                      (children c current) p).0
                    (rw (fresh, away, enumerate) at m) in
                sound_step current to child path visited p fresh n
                  (sound fuel (as_object child) to path' (mark visited here true) p k)
          ]
        ]

    ends_at :
        {to a : String} {locators : List String}
        → IsPath to a locators
        → contains locators to ≡ true
    ends_at (arrived {a} e) = ground (arith, (eq_iff a _).1 e)
    ends_at (onward {a} {locators} edge key walk) = ground (arith, ends_at walk)

    mem-children_of :
        (current : Object u) (b : String)
        → contains (d.edges_from topology.graph (get_locator current)) b ≡ true
        → contains (keys items) b ≡ true
        → (child : T) × Memᴰ child (children c current) × (locator_of c child ≡ b)
    unfolding children
    mem-children_of current b edge key =
        let (child, e) = (lookup-keys items b).0 key in
        (
          child,
          (mem-filter_map (lookup items) (d.edges_from topology.graph (get_locator current))
                child).1
              (b, mem_of_contains _ b edge, e),
          keyed b child e,
        )

    complete :
        (fuel : ℕ) (current to : Object u) (path : List (Option T)) (visited : String → Bool)
        (a : String) (locators : List String)
        → a ≡ get_locator current
        → IsPath (get_locator to) a locators
        → distinct locators ≡ true
        → ((x : String) → contains locators x ≡ true → visited x ≡ false)
        → length locators ≤ fuel
        → Memᴰ (path ++ map (lookup items) locators) (enumerate c fuel current to path visited)
    unfolding enumerate
    complete zero current to path visited a _ same (arrived e) once clear h = absurd (omega arith)
    complete zero current to path visited a _ same (onward edge key walk) once clear h =
        absurd (omega arith)
    complete (suc fuel) current to path visited a _ same (arrived e) once clear h =
        let here = get_locator current in
        let fresh : visited here ≡ false = clear here (ground (arith, (eq_iff a here).1 same)) in
        let here_to : (here == get_locator to) ≡ true =
          (eq_iff here (get_locator to)).1 (sym same ∙ e) in
        rw (fresh, here_to, enumerate) (Memᴰ.head (ap (λ k. path ++ lookup items k ∷ []) same))
    complete (suc fuel) current to path visited a _ same (onward {b} {locators} edge key walk) once
          clear h =
        let here = get_locator current in
        let path' = path ++ lookup items here ∷ [] in
        let fresh : visited here ≡ false = clear here (ground (arith, (eq_iff a here).1 same)) in
        let away : (here == get_locator to) ≡ false = ground (
          arith,
          eq_iff here (get_locator to),
          eq_iff a (get_locator to),
          eq_iff a here,
          ends_at walk,
          ap (contains locators) same,
          ap (λ k. contains locators k) same,
        ) in
        let (child, m, named) =
          mem-children_of current b
            (subst (λ k. contains (d.edges_from topology.graph k) b ≡ true) same edge) key in
        rw (fresh, away, enumerate)
          ((mem-flat_map (λ x. enumerate c fuel (as_object x) to path' (mark visited here true))
              (children c current) (path ++ map (lookup items) (a ∷ locators))).1
            (
              child,
              m,
              subst
                  (λ p.
                    Memᴰ p (enumerate c fuel (as_object child) to path' (mark visited here true)))
                  (append_assoc path (lookup items here ∷ []) (map (lookup items) locators)
                    ∙ ap (λ k. path ++ lookup items k ∷ map (lookup items) locators) (sym same))
                  (complete fuel (as_object child) to path' (mark visited here true) b locators
                    (sym named) walk (ground arith)
                    (λ x n.
                      ground (arith, clear x, eq_iff here x, ap (λ k. contains locators k) same))
                    (omega arith)),
            ))

    within :
        {to a : String} {locators : List String}
        → IsPath to a locators
        → (x : String) → contains locators x ≡ true
        → contains (a ∷ keys items) x ≡ true
    within (arrived e) x m = ground arith
    within (onward {a} {b} edge key walk) x m = ground (arith, within walk x, eq_iff b x, key)

    -- `Paths` returns, from one object to another, exactly the walks along edges from item to item
    -- that repeat no locator, each as the items that its locators stand for (nil for a start that the
    -- collection lacks).
    pub paths_iff :
        (from to : Object u) (p : List (Option T))
        → Memᴰ p (paths c (some from) (some to)) ↔ (
            (locators : List String) × IsPath (get_locator to) (get_locator from) locators
            × (distinct locators ≡ true)
            × (p ≡ map (lookup items) locators))
    unfolding paths
    paths_iff from to p =
        let fuel = suc (length items) in
        let found = enumerate c fuel from to [] (λ _. false) in
        let same =
          ap (λ (s : Search T). s.paths)
            (dfs-eq c fuel from to [] (record { paths = []; visited = λ _. false })) in
        (
          λ m.
              let (locators, walk, once, _, e) =
                sound fuel from to [] (λ _. false) p (subst (Memᴰ p) same m) in
              (locators, walk, once, e),
          λ (locators, walk, once, e). subst (Memᴰ p) (sym same) (
              subst (λ q. Memᴰ q found) (sym e)
                (complete fuel from to [] (λ _. false) (get_locator from) locators refl walk once
                  (λ x m. refl)
                  (omega (
                    arith,
                    length-le_of_distinct locators (get_locator from ∷ keys items) once
                        (within walk),
                    length-keys items,
                  )))),
        )
