-- ===== src/Collection/Dfs.antt =====
-- The search by `dfs` finds what a plain enumeration finds, and leaves the marks as they were.
use policy_machinery.Prelude.{
  String, Bool, ◌≡◌, false, ℕ, List, true, Option, fun_ext, [], Bool-cases, suc, ◌==◌, ◌++◌, lookup,
  ap, inl, eq_iff, ◌∷◌, flat_map, sym, append-nil, inr, ◌∙◌, zero, append_assoc,
}
use policy_machinery.Types.{Universe, Object, get_locator}
use policy_machinery.Dot.{Dot}
use policy_machinery.Collection.{Collection, Search, dfs, mark, each}
use policy_machinery.Collection.{children}

unmark :
    (visited : String → Bool) (k : String)
    → visited k ≡ false
    → mark (mark visited k true) k false ≡ visited
unmark visited k h = fun_ext λ a. elim (Bool-cases (k == a)) [
  | inl same ↦ rw (same, ← (eq_iff k a).0 same, h)
  | inr differs ↦ rw differs
]

module _ {u : Universe} {d : Dot} {T : Type 0} (c : Collection u d T) where
  open c use {as_object, items}

  -- the paths below `current`, with no state but the marks on the way down
  unfoldable pub enumerate :
      ℕ → Object u → Object u → List (Option T) → (String → Bool) → List (List (Option T))
  enumerate zero current to path visited = []
  enumerate (suc fuel) current to path visited =
      let locator = get_locator current in
      let path' = path ++ lookup items locator ∷ [] in
      elim (visited locator) [
        | true ↦ []
        | false ↦ elim (locator == get_locator to) [
          | true ↦ path' ∷ []
          | false ↦
              flat_map
                (λ child. enumerate fuel (as_object child) to path' (mark visited locator true))
                (children c current)
        ]
      ]

  each-eq :
      (f : T → Search T → Search T) (g : T → (String → Bool) → List (List (Option T)))
      → ((x : T) (s : Search T)
          → f x s ≡ record { paths = s.paths ++ g x s.visited; visited = s.visited })
      → (xs : List T) (s : Search T)
      → each f xs s
        ≡ record { paths = s.paths ++ flat_map (λ x. g x s.visited) xs; visited = s.visited }
  each-eq f g h [] s =
      ap (λ ps. record { paths = ps; visited = s.visited }) (sym (append-nil s.paths))
  each-eq f g h (x ∷ xs) s = rw (h x s) (
      each-eq f g h xs (record { paths = s.paths ++ g x s.visited; visited = s.visited })
      ∙ ap (λ ps. record { paths = ps; visited = s.visited })
          (append_assoc s.paths (g x s.visited) (flat_map (λ y. g y s.visited) xs)))

  dfs_step :
      (fuel : ℕ) (current to : Object u) (path : List (Option T)) (s : Search T)
      → ((x : T) (path' : List (Option T)) (s' : Search T)
          → dfs c fuel (as_object x) to path' s' ≡ record {
            paths = s'.paths ++ enumerate fuel (as_object x) to path' s'.visited;
            visited = s'.visited;
          })
      → dfs c (suc fuel) current to path s ≡ record {
        paths = s.paths ++ enumerate (suc fuel) current to path s.visited;
        visited = s.visited;
      }
  unfolding dfs enumerate
  dfs_step fuel current to path s ih =
      let here = get_locator current in
      let path' = path ++ lookup items here ∷ [] in
      let entered = record s { visited = mark s.visited here true } in
      elim (Bool-cases (s.visited here)) [
        | inl seen ↦
            rw (seen, dfs, enumerate)
              (ap (λ ps. record { paths = ps; visited = s.visited }) (sym (append-nil s.paths)))
        | inr fresh ↦ elim (Bool-cases (here == get_locator to)) [
          | inl arrived ↦
              rw (fresh, dfs, enumerate, arrived)
                (ap (λ v. record { paths = s.paths ++ path' ∷ []; visited = v })
                  (unmark s.visited here fresh))
          | inr onward ↦
              rw (fresh, dfs, enumerate, onward)
                (ap (λ st. record { paths = st.paths; visited = mark st.visited here false })
                    (each-eq (λ child st. dfs c fuel (as_object child) to path' st)
                      (λ child v. enumerate fuel (as_object child) to path' v)
                      (λ child st. ih child path' st) (children c current) entered)
                  ∙ ap
                      (λ v. record {
                        paths =
                            s.paths
                            ++ flat_map
                                (λ child. enumerate fuel (as_object child) to path' entered.visited)
                                (children c current);
                        visited = v;
                      })
                      (unmark s.visited here fresh))
        ]
      ]

  pub dfs-eq :
      (fuel : ℕ) (current to : Object u) (path : List (Option T)) (s : Search T)
      → dfs c fuel current to path s ≡ record {
        paths = s.paths ++ enumerate fuel current to path s.visited;
        visited = s.visited;
      }
  dfs-eq zero current to path s =
      unfold dfs enumerate in
      ap (λ ps. record { paths = ps; visited = s.visited }) (sym (append-nil s.paths))
  dfs-eq (suc fuel) current to path s =
      dfs_step fuel current to path s (λ x path' s'. dfs-eq fuel (as_object x) to path' s')
