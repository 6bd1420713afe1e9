-- ===== src/Topology/Returns.antt =====
-- NewTopology returns, with or without an error, unless a link function panics.
use policy_machinery.Prelude.{slice_to_map}
use mathlib.Core.List.Memᴰ
use policy_machinery.Types.{
  UniverseLaws, Universe, GroupKind, Object, group_kind, same_kind, same_kind_iff,
}
use policy_machinery.Dot.{Dot, DotLaws}
use policy_machinery.Prelude.{
  List, Memᴰ, ◌≡◌, filter, some, ◌≢◌, none, ◌∷◌, Option-cases, Bool-cases, [], Option, inl, refl,
  ⊎_elim, inr, ap, ◌∙◌, slice_to_map, if◌then◌else◌,
}
use policy_machinery.Topology.Build.{
  loop_error, link_children, add_links, new_topology, build_topology, link_parents, base_graph,
}
use policy_machinery.Topology.Options.{
  LinkFunc, TopologyOptionsFunc, apply_options, Topology, Error, loop_detected,
}
use policy_machinery.Dag.Cycle.{IsClosed}
use policy_machinery.Dag.Correct.{is_dag_returns}
use policy_machinery.Prelude.{Bool, true, false}
use policy_machinery.Topology.Graph.{linked-IsClosed, linkables}
use policy_machinery.Topology.Index.{attach}

module _ (u : Universe) (d : Dot) where
  -- no link function panics on a linkable of the kind that the link is for
  abbrev pub NeverPanics : List (LinkFunc u) → List (Object u) → Type 0
  NeverPanics links cs =
      (link : LinkFunc u) (c : Object u)
      → Memᴰ link links
      → Memᴰ c cs
      → group_kind c ≡ link.to
      → link.func c ≢ none

  link_children_returns :
      (link : LinkFunc u) (g : d.Graph) (cs : List (Object u))
      → ((c : Object u) → Memᴰ c cs → link.func c ≢ none)
      → (g' : d.Graph) × (link_children u d link g cs ≡ some g')
  unfolding link_children
  link_children_returns link g [] h = (g, refl)
  link_children_returns link g (c ∷ cs) h = elim (Option-cases (link.func c)) [
    | inl panics ↦ absurd (h c (Memᴰ.head refl) panics)
    | inr (ps, e) ↦
        let (g', rest) =
          link_children_returns link (link_parents u d c g ps) cs (λ x m. h x (Memᴰ.tail m)) in
        (g', rw (e, link_children) rest)
  ]

  mem-filter_kind :
      (to : GroupKind) (cs : List (Object u)) (c : Object u)
      → Memᴰ c (filter (λ l. same_kind (group_kind l) to) cs)
      → Memᴰ c cs × (group_kind c ≡ to)
  mem-filter_kind to [] c m = absurd (Memᴰ.not-nil m)
  mem-filter_kind to (x ∷ cs) c m = elim (Bool-cases (same_kind (group_kind x) to)) [
    | inl kept ↦
        ⊎_elim (λ e. (Memᴰ.head e, ap group_kind e ∙ (same_kind_iff (group_kind x) to).0 kept))
          (λ later. let (n, k) = mem-filter_kind to cs c later in (Memᴰ.tail n, k))
          (Memᴰ.cases_cons (rw kept at m))
    | inr dropped ↦ let (n, k) = mem-filter_kind to cs c (rw dropped at m) in (Memᴰ.tail n, k)
  ]

  add_links_returns :
      (cs : List (Object u)) (g : d.Graph) (links : List (LinkFunc u))
      → NeverPanics links cs
      → (g' : d.Graph) × (add_links u d cs g links ≡ some g')
  unfolding add_links
  add_links_returns cs g [] h = (g, refl)
  add_links_returns cs g (link ∷ links) h =
      let (g₁, first) =
        link_children_returns link g (filter (λ l. same_kind (group_kind l) link.to) cs)
          (λ c m. let (n, k) = mem-filter_kind link.to cs c m in h link c (Memᴰ.head refl) n k) in
      let (g', rest) = add_links_returns cs g₁ links (λ l c m n k. h l c (Memᴰ.tail m) n k) in
      (g', rw (first, add_links) rest)

module _ {u : Universe} {d : Dot} (ulaws : UniverseLaws u) (laws : DotLaws d) where
  loop_error_returns :
      (allow_loops : Bool) (g : d.Graph)
      → IsClosed d g
      → (err : Option Error) × (loop_error u d allow_loops g ≡ some err)
  unfolding loop_error
  loop_error_returns true g closed = (none, refl)
  loop_error_returns false g closed =
      let (dag, e) = is_dag_returns d g laws closed in
      (if dag then none else some loop_detected, rw (loop_error, e) refl)

  pub new_topology_returns :
      (options : List (TopologyOptionsFunc u))
      → NeverPanics u d (apply_options u options).links (linkables u (apply_options u options))
      → (t : Topology u d) × (err : Option Error) × (new_topology u d options ≡ some (t, err))
  unfolding new_topology build_topology
  new_topology_returns options h =
      let o = apply_options u options in
      let (g, linked) =
        add_links_returns u d (linkables u o)
          (base_graph u d o.objects (attach u o.policies o.targetables) o.policies) o.links h in
      let (err, e) = loop_error_returns o.allow_loops g (linked-IsClosed ulaws laws o g linked) in
      (
        record {
          graph = g;
          targetables =
              slice_to_map u.targetable_methods.get_locator (attach u o.policies o.targetables);
          policies = slice_to_map u.policy_methods.get_locator o.policies;
          objects = slice_to_map u.other_methods.get_locator o.objects;
        },
        err,
        rw (new_topology, build_topology, linked, e) refl,
      )
