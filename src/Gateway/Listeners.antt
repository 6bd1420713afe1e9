-- ===== src/Gateway/Listeners.antt =====
-- What the link functions find: the listeners of a route, of machinery/gateway_api_topology.go.
use mathlib.Core.List.Memᴰ
use policy_machinery.Kubernetes.{Kubernetes}
use policy_machinery.Prelude.{
  String, Option, none, some, List, [], ◌∷◌, Memᴰ, ◌≡◌, sym, true, Bool, Option-cases, inl, inr,
  ◌↔◌, ⊎_elim, mem-filter, ◌∙◌, ◌==◌, eq_iff, arith, find, ◌&&◌, get_or, flat_map, mem-flat_map,
  refl,
}
use policy_machinery.Gateway.Resources.{
  Policy, Gateway, Listener, ParentReference, Protocol, Route, route, listener,
}
use policy_machinery.Gateway.Refs.{
  find_gateway_from_parent_ref, find_listener_from_parent_ref, is_listener_of,
}
use policy_machinery.Gateway.Parents.{
  find-some, find_returns, AreDistinct, find_gateway_iff, refers_to_gateway_iff, is_parent_iff,
  same_protocol_refl,
}
use policy_machinery.Gateway.Methods.{meta_locator}
use policy_machinery.Gateway.Links.{link_listener_to_route, as_objects}
use policy_machinery.Gateway.Objects.{Extension}
use policy_machinery.Types.{targetable}

module _ (k : Kubernetes) {P : Type 0} where
  -- no two of the listeners have the same name and gateways with the same locator
  abbrev pub AreDistinctListeners : List (Listener P) → Type 0
  AreDistinctListeners listeners =
      (l m : Listener P)
      → Memᴰ l listeners
      → Memᴰ m listeners
      → meta_locator k l.gateway.meta ≡ meta_locator k m.gateway.meta
      → l.listener.name ≡ m.listener.name
      → l ≡ m

  -- the listener has the section name of the reference, where there is one
  abbrev pub HasSectionName : ParentReference → Listener P → Type 0
  HasSectionName ref l = (s : String) → ref.section_name ≡ some s → l.listener.name ≡ s

  -- the test on listeners where the reference has a section name
  is_section : Gateway P → String → Listener P → Bool
  unfolding is_listener_of
  is_section g section l = is_listener_of k g l && l.listener.name == section

  is_section_iff :
      (g : Gateway P) (section : String) (l : Listener P)
      → (is_section g section l ≡ true)
        ↔ ((meta_locator k l.gateway.meta ≡ meta_locator k g.meta) × (l.listener.name ≡ section))
  unfolding is_section is_listener_of
  is_section_iff g section l = ground (
    arith,
    eq_iff (meta_locator k l.gateway.meta) (meta_locator k g.meta),
    eq_iff l.listener.name section,
  )

  -- the listeners found by a section name
  section_iff :
      (listeners : List (Listener P)) (g : Gateway P) (section : String) (l : Listener P)
      → AreDistinctListeners listeners
      → Memᴰ l (elim (find listeners (is_section g section)) [ none ↦ [] | some x ↦ x ∷ [] ]) ↔ (
          Memᴰ l listeners
          × (meta_locator k l.gateway.meta ≡ meta_locator k g.meta)
          × (l.listener.name ≡ section))
  section_iff listeners g section l distinct =
      elim (Option-cases (find listeners (is_section g section))) [
        | inl missing ↦ (
          λ m. absurd (Memᴰ.not-nil (rw missing at m)),
          λ (n, e, named).
              let (x, there) =
                find_returns listeners (is_section g section) l n
                  ((is_section_iff g section l).1 (e, named)) in
              absurd (clash missing there),
        )
        | inr (x, there) ↦
            let (n_x, e_x) = find-some listeners (is_section g section) x there in
            let (gateway_x, name_x) = (is_section_iff g section x).0 e_x in
            (
              λ m. let same = only (rw there at m) in rw same (n_x, gateway_x, name_x),
              λ (n, e, named).
                  rw there
                    (Memᴰ.head (distinct l x n n_x (e ∙ sym gateway_x) (named ∙ sym name_x))),
            )
      ]
    where
      clash : {x : Listener P} {o : Option (Listener P)} → o ≡ none → o ≡ some x → ⊥
      clash e f = cc

      only : {x : Listener P} → Memᴰ l (x ∷ []) → l ≡ x
      only m = ⊎_elim (λ same. same) (λ later. absurd (Memᴰ.not-nil later)) (Memᴰ.cases_cons m)

  listeners_of_gateway_iff :
      (gateways : List (Gateway P)) (listeners : List (Listener P)) (ns : String)
      (ref : ParentReference) (g : Gateway P) (l : Listener P)
      → AreDistinctListeners listeners
      → find_gateway_from_parent_ref k gateways ns ref ≡ some g
      → Memᴰ l (find_listener_from_parent_ref k gateways listeners ns ref) ↔ (
          Memᴰ l listeners
          × (meta_locator k l.gateway.meta ≡ meta_locator k g.meta)
          × HasSectionName ref l)
  unfolding find_listener_from_parent_ref is_section is_listener_of
  listeners_of_gateway_iff gateways listeners ns ref g l distinct found =
      let same_gateway =
        λ (x : Listener P). eq_iff (meta_locator k x.gateway.meta) (meta_locator k g.meta) in
      elim (Option-cases ref.section_name) [
        | inl absent ↦ (
          λ m.
              let (n, e) =
                (mem-filter (is_listener_of k g) listeners l).0
                  (rw (find_listener_from_parent_ref, found, absent) at m) in
              (n, (same_gateway l).0 e, λ s named. absurd (clash absent named)),
          λ (n, e, _).
              rw (find_listener_from_parent_ref, found, absent)
                ((mem-filter (is_listener_of k g) listeners l).1 (n, (same_gateway l).1 e)),
        )
        | inr (section, named) ↦
            let sections = section_iff listeners g section l distinct in
            (
              λ m.
                  let (n, e, name) =
                    sections.0 (rw (find_listener_from_parent_ref, found, named) at m) in
                  (n, e, λ s other. name ∙ one_name named other),
              λ (n, e, has).
                  rw (find_listener_from_parent_ref, found, named)
                    (sections.1 (n, e, has section named)),
            )
      ]
    where
      clash : {o : Option String} {s : String} → o ≡ none → o ≡ some s → ⊥
      clash e f = cc

      one_name : {o : Option String} {s t : String} → o ≡ some s → o ≡ some t → s ≡ t
      one_name e f = cc

  -- the gateway is the one that the parent reference of a route is to
  abbrev pub IsParent : String → ParentReference → Gateway P → Type 0
  IsParent ns ref g =
      (get_or ref.group k.gateway_group ≡ k.gateway_group)
      × (get_or ref.kind "Gateway" ≡ "Gateway")
      × (g.meta.namespace ≡ get_or ref.namespace ns)
      × (g.meta.name ≡ ref.name)

  listeners_iff :
      (gateways : List (Gateway P)) (listeners : List (Listener P)) (ns : String)
      (ref : ParentReference) (l : Listener P)
      → AreDistinct k gateways
      → AreDistinctListeners listeners
      → Memᴰ l (find_listener_from_parent_ref k gateways listeners ns ref) ↔ (
          Memᴰ l listeners
          × HasSectionName ref l
          × ((g : Gateway P) × Memᴰ g gateways
              × IsParent ns ref g
              × (meta_locator k l.gateway.meta ≡ meta_locator k g.meta)))
  unfolding find_listener_from_parent_ref
  listeners_iff gateways listeners ns ref l distinct_gateways distinct = (
    λ m. elim (Option-cases (find_gateway_from_parent_ref k gateways ns ref)) [
      | inl missing ↦ absurd (Memᴰ.not-nil (rw (find_listener_from_parent_ref, missing) at m))
      | inr (g, found) ↦
          let (n, e, has) =
            (listeners_of_gateway_iff gateways listeners ns ref g l distinct found).0 m in
          let (known, accepted, named) =
            (find_gateway_iff k gateways ns ref g distinct_gateways).0 found in
          let (group, kind) = (refers_to_gateway_iff k ref).0 accepted in
          let (same_ns, same_name) = (is_parent_iff k ns ref g).0 named in
          (n, has, (g, known, (group, kind, same_ns, same_name), e))
    ],
    λ (n, has, (g, known, (group, kind, same_ns, same_name), e)).
        (listeners_of_gateway_iff gateways listeners ns ref g l distinct (
            (find_gateway_iff k gateways ns ref g distinct_gateways).1 (
              known,
              (refers_to_gateway_iff k ref).1 (group, kind),
              (is_parent_iff k ns ref g).1 (same_ns, same_name),
            ))).1
          (n, e, has),
  )

module _ (k : Kubernetes) where
  -- The listeners that LinkListenerTo…RouteFunc gives as the parents of a route, where no two known
  -- gateways have the same namespace and name and no two known listeners the same name and gateways
  -- with the same locator, are the known listeners of a known gateway that some parent reference of
  -- the route is to, with the section name of that reference where it has one.
  pub link_listener_to_route_lem :
      (e : Extension) (p : Protocol) (gateways : List (Gateway (Policy e.CustomPolicy)))
      (listeners : List (Listener (Policy e.CustomPolicy))) (r : Route (Policy e.CustomPolicy))
      → AreDistinct k gateways
      → AreDistinctListeners k listeners
      → (ls : List (Listener (Policy e.CustomPolicy))) × ((link_listener_to_route k e p gateways
              listeners).func
            (targetable (route p r))
          ≡ some (as_objects k e listener ls))
        × ((l : Listener (Policy e.CustomPolicy))
            → Memᴰ l ls ↔ (
                (ref : ParentReference) × Memᴰ ref r.parent_refs
                × (Memᴰ l listeners
                    × HasSectionName k ref l
                    × ((g : Gateway (Policy e.CustomPolicy)) × Memᴰ g gateways
                        × IsParent k r.meta.namespace ref g
                        × (meta_locator k l.gateway.meta ≡ meta_locator k g.meta)))))
  unfolding link_listener_to_route
  link_listener_to_route_lem e p gateways listeners r distinct_gateways distinct =
      let found = find_listener_from_parent_ref k gateways listeners r.meta.namespace in
      let one = λ (ref : ParentReference) (l : Listener (Policy e.CustomPolicy)).
        listeners_iff k gateways listeners r.meta.namespace ref l distinct_gateways distinct in
      (
        flat_map found r.parent_refs,
        rw (same_protocol_refl p) refl,
        λ l. (
          λ m.
              let (ref, n, at) = (mem-flat_map found r.parent_refs l).0 m in
              (ref, n, (one ref l).0 at),
          λ (ref, n, at). (mem-flat_map found r.parent_refs l).1 (ref, n, (one ref l).1 at),
        ),
      )
