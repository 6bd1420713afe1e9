-- ===== src/Collection/Keyed.antt =====
-- The collections of a topology hold every item under its own locator.
use policy_machinery.Types.{Universe, Object, get_locator, targetable, policy, other}
use policy_machinery.Dot.{Dot}
use policy_machinery.Collection.{targetables_of, policies_of, objects_of, all_of, put_objects}
use policy_machinery.Collection.Paths.{IsKeyed}
use policy_machinery.Topology.{
  Topology, Error, TopologyOptionsFunc, apply_options, new_topology, build_topology, add_links,
  loop_error, linkables_of, base_graph, attach,
}
use policy_machinery.Prelude.{
  List, String, Option, none, some, [], ◌∷◌, ◌≡◌, lookup, put, lookup-put, slice_to_map,
  lookup-slice_to_map, distinct-slice_to_map, distinct, keys, contains, true, Bool-cases,
  Option-cases, inl, inr, lookup-keys, arith, ◌==◌, eq_iff, ap, ◌∙◌, subst, sym,
}

module _ {u : Universe} where
  -- the entries stand under the locators of their objects
  Located : List (String × Object u) → Type 0
  Located m = (k : String) (x : Object u) → lookup m k ≡ some x → get_locator x ≡ k

  Located-put_objects :
      (T : Type 0) (as_object : T → Object u) (m : List (String × Object u))
      (entries : List (String × T))
      → Located m
      → distinct (keys entries) ≡ true
      → ((k : String) (x : T) → lookup entries k ≡ some x → get_locator (as_object x) ≡ k)
      → Located (put_objects as_object m entries)
  unfolding Located put_objects
  Located-put_objects T as_object m [] located once under = located
  Located-put_objects T as_object m ((j, v) ∷ entries) located once under =
      Located-put_objects T as_object (put j (as_object v) m) entries newest (ground (arith, once))
        later
    where
      at_head : get_locator (as_object v) ≡ j
      at_head = under j v (ground (arith, eq_iff j j))

      newest : Located (put j (as_object v) m)
      newest k x found = elim (Bool-cases (j == k)) [
        | inl same ↦
            ap get_locator (unwrap (rw (lookup-put j k (as_object v) m, same) at found))
            ∙ at_head
            ∙ (eq_iff j k).0 same
        | inr differs ↦ located k x (rw (lookup-put j k (as_object v) m, differs) at found)
      ]
        where
          unwrap : some (as_object v) ≡ some x → x ≡ as_object v
          unwrap e = cc

      repeated : contains (keys entries) j ≡ true → ⊥
      repeated h = ground (arith, once)

      later : (k : String) (x : T) → lookup entries k ≡ some x → get_locator (as_object x) ≡ k
      later k x found = elim (Bool-cases (j == k)) [
        | inl same ↦ absurd (
            repeated (
              subst (λ y. contains (keys entries) y ≡ true) (sym ((eq_iff j k).0 same))
                ((lookup-keys entries k).1 (x, found))))
        | inr differs ↦ under k x (rw differs found)
      ]

module _ {u : Universe} {d : Dot} (options : List (TopologyOptionsFunc u)) (t : Topology u d)
    (err : Option Error) (built : new_topology u d options ≡ some (t, err)) where
  maps_of :
      (t.targetables
        ≡ slice_to_map u.targetable_methods.get_locator
            (attach u (apply_options u options).policies (apply_options u options).targetables))
      × (t.policies ≡ slice_to_map u.policy_methods.get_locator (apply_options u options).policies)
      × (t.objects ≡ slice_to_map u.other_methods.get_locator (apply_options u options).objects)
  unfolding new_topology build_topology
  maps_of =
      let o = apply_options u options in
      elim (Option-cases (
        add_links u d (linkables_of u o.objects (attach u o.policies o.targetables) o.policies)
          (base_graph u d o.objects (attach u o.policies o.targetables) o.policies) o.links)) [
            | inl panics ↦ ground arith
            | inr (g, e) ↦ elim (Option-cases (loop_error u d o.allow_loops g)) [
              | inl stuck ↦ ground arith
              | inr (loops, e') ↦ ground arith
            ]
          ]

  targetables-IsKeyed : IsKeyed (targetables_of t)
  unfolding targetables_of
  targetables-IsKeyed k x found =
      let o = apply_options u options in
      (lookup-slice_to_map u.targetable_methods.get_locator (attach u o.policies o.targetables) k x
        (rw maps_of.0 at found)).0

  policies-IsKeyed : IsKeyed (policies_of t)
  unfolding policies_of
  policies-IsKeyed k x found =
      (lookup-slice_to_map u.policy_methods.get_locator (apply_options u options).policies k x
        (rw maps_of.1 at found)).0

  objects-IsKeyed : IsKeyed (objects_of t)
  unfolding objects_of
  objects-IsKeyed k x found =
      (lookup-slice_to_map u.other_methods.get_locator (apply_options u options).objects k x
        (rw maps_of.2 at found)).0

  all-IsKeyed : IsKeyed (all_of t)
  unfolding all_of Located targetables_of policies_of objects_of
  all-IsKeyed =
      let o = apply_options u options in
      Located-put_objects u.Policy policy _ t.policies
        (Located-put_objects u.Targetable targetable _ t.targetables
          (Located-put_objects u.Other other [] t.objects (λ k x found. absurd (none_found found))
            (rw maps_of.2 (distinct-slice_to_map u.other_methods.get_locator o.objects))
            objects-IsKeyed)
          (rw maps_of.0 (
            distinct-slice_to_map u.targetable_methods.get_locator
              (attach u o.policies o.targetables)))
          targetables-IsKeyed)
        (rw maps_of.1 (distinct-slice_to_map u.policy_methods.get_locator o.policies))
        policies-IsKeyed
    where
      none_found : {x : Object u} → ◌≡◌ {A = Option (Object u)} none (some x) → ⊥
      none_found e = cc

  -- Every collection of a topology that NewTopology builds holds its items under their locators: the
  -- targetables, the policies, the objects, and all of them together.
  pub collections-IsKeyed :
      IsKeyed (targetables_of t)
      × IsKeyed (policies_of t)
      × IsKeyed (objects_of t)
      × IsKeyed (all_of t)
  collections-IsKeyed = (targetables-IsKeyed, policies-IsKeyed, objects-IsKeyed, all-IsKeyed)
