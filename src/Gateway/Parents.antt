-- ===== src/Gateway/Parents.antt =====
-- What the link functions find: the gateways of a route, of machinery/gateway_api_topology.go.
use mathlib.Core.List.Memᴰ
use policy_machinery.Types.{targetable}
use policy_machinery.Kubernetes.{Kubernetes}
use policy_machinery.Prelude.{
  String, Option, none, some, List, [], ◌∷◌, Memᴰ, ◌≡◌, refl, sym, ap, ◌∙◌, true, false, Bool,
  Bool-cases, inl, inr, ◌↔◌, find, arith, subst, filter_map, mem-filter_map, ⊎_elim, get_or, eq_iff,
}
use policy_machinery.Gateway.Resources.{
  http, grpc, tcp, tls, udp, Gateway, Route, ParentReference, Policy, Protocol, same_protocol,
  route, gateway,
}
use policy_machinery.Gateway.Refs.{find_gateway_from_parent_ref, refers_to_gateway, is_parent}
use policy_machinery.Gateway.Links.{link_gateway_to_route, as_objects}
use policy_machinery.Gateway.Objects.{Extension}

module _ {ℓ} {A : Type ℓ} where
  pub find-some :
      (xs : List A) (p : A → Bool) (x : A) → find xs p ≡ some x → Memᴰ x xs × (p x ≡ true)
  find-some [] p x h = absurd (clash h)
    where
      clash : ◌≡◌ {A = Option A} none (some x) → ⊥
      clash e = cc
  find-some (y ∷ xs) p x h = elim (Bool-cases (p y)) [
    | inl here ↦
        (Memᴰ.head (sym (same (rw here at h))), subst (λ z. p z ≡ true) (same (rw here at h)) here)
    | inr there ↦ let (m, e) = find-some xs p x (rw there at h) in (Memᴰ.tail m, e)
  ]
    where
      same : ◌≡◌ {A = Option A} (some y) (some x) → y ≡ x
      same e = cc

  pub find_returns :
      (xs : List A) (p : A → Bool) (x : A) → Memᴰ x xs → p x ≡ true → (y : A) × (find xs p ≡ some y)
  find_returns [] p x m h = absurd (Memᴰ.not-nil m)
  find_returns (z ∷ xs) p x m h = elim (Bool-cases (p z)) [
    | inl here ↦ (z, rw here refl)
    | inr there ↦
        ⊎_elim (λ same. absurd (clash (subst (λ w. p w ≡ true) same h) there))
          (λ later. let (y, e) = find_returns xs p x later h in (y, rw there e)) (Memᴰ.cases_cons m)
  ]
    where
      clash : {b : Bool} → b ≡ true → b ≡ false → ⊥
      clash e f = cc

module _ (k : Kubernetes) where
  pub refers_to_gateway_iff :
      (ref : ParentReference)
      → (refers_to_gateway k ref ≡ true) ↔ (
          (get_or ref.group k.gateway_group ≡ k.gateway_group)
          × (get_or ref.kind "Gateway" ≡ "Gateway"))
  unfolding refers_to_gateway
  refers_to_gateway_iff ref = ground (
    arith,
    eq_iff (get_or ref.group k.gateway_group) k.gateway_group,
    eq_iff (get_or ref.kind "Gateway") "Gateway",
  )

module _ (k : Kubernetes) {P : Type 0} where
  -- no two of the gateways have the same namespace and name
  abbrev pub AreDistinct : List (Gateway P) → Type 0
  AreDistinct gateways =
      (g h : Gateway P)
      → Memᴰ g gateways
      → Memᴰ h gateways
      → g.meta.namespace ≡ h.meta.namespace
      → g.meta.name ≡ h.meta.name
      → g ≡ h

  pub is_parent_iff :
      (ns : String) (ref : ParentReference) (g : Gateway P)
      → (is_parent k ns ref g ≡ true)
        ↔ ((g.meta.namespace ≡ get_or ref.namespace ns) × (g.meta.name ≡ ref.name))
  unfolding is_parent
  is_parent_iff ns ref g =
      ground (arith, eq_iff g.meta.namespace (get_or ref.namespace ns), eq_iff g.meta.name ref.name)

  same_parent :
      (ns : String) (ref : ParentReference) (g h : Gateway P)
      → is_parent k ns ref g ≡ true
      → is_parent k ns ref h ≡ true
      → (g.meta.namespace ≡ h.meta.namespace) × (g.meta.name ≡ h.meta.name)
  same_parent ns ref g h e f =
      let (g_ns, g_name) = (is_parent_iff ns ref g).0 e in
      let (h_ns, h_name) = (is_parent_iff ns ref h).0 f in (g_ns ∙ sym h_ns, g_name ∙ sym h_name)

  pub find_gateway_iff :
      (gateways : List (Gateway P)) (ns : String) (ref : ParentReference) (g : Gateway P)
      → AreDistinct gateways
      → (find_gateway_from_parent_ref k gateways ns ref ≡ some g)
        ↔ (Memᴰ g gateways × (refers_to_gateway k ref ≡ true) × (is_parent k ns ref g ≡ true))
  unfolding find_gateway_from_parent_ref
  find_gateway_iff gateways ns ref g distinct = elim (Bool-cases (refers_to_gateway k ref)) [
    | inl accepted ↦ (
      λ found.
          let (m, e) = find-some gateways (is_parent k ns ref) g (rw accepted at found) in
          (m, accepted, e),
      λ (m, _, e).
          let (h, found) = find_returns gateways (is_parent k ns ref) g m e in
          let (n, f) = find-some gateways (is_parent k ns ref) h found in
          let (same_ns, same_name) = same_parent ns ref g h e f in
          rw accepted (found ∙ ap some (sym (distinct g h m n same_ns same_name))),
    )
    | inr refused ↦
        (λ found. absurd (missing (rw refused at found)), λ (m, y, e). absurd (clash y refused))
  ]
    where
      missing : ◌≡◌ {A = Option (Gateway P)} none (some g) → ⊥
      missing e = cc

      clash : {b : Bool} → b ≡ true → b ≡ false → ⊥
      clash e f = cc

pub same_protocol_refl : (p : Protocol) → same_protocol p p ≡ true
same_protocol_refl http = refl
same_protocol_refl grpc = refl
same_protocol_refl tcp = refl
same_protocol_refl tls = refl
same_protocol_refl udp = refl

module _ (k : Kubernetes) where
  -- The gateways that LinkGatewayTo…RouteFunc gives as the parents of a route, where no two known
  -- gateways have the same namespace and name, are the known gateways that some parent reference of
  -- the route is to: the reference has the group and the kind of a gateway, or leaves them out, and
  -- the gateway's name and namespace, the route's standing for a namespace left out.
  pub link_gateway_to_route_lem :
      (e : Extension) (p : Protocol) (gateways : List (Gateway (Policy e.CustomPolicy)))
      (r : Route (Policy e.CustomPolicy))
      → AreDistinct k gateways
      → (gs : List (Gateway (Policy e.CustomPolicy))) × ((link_gateway_to_route k e p gateways).func
            (targetable (route p r))
          ≡ some (as_objects k e gateway gs))
        × ((g : Gateway (Policy e.CustomPolicy))
            → Memᴰ g gs ↔ (
                Memᴰ g gateways
                × ((ref : ParentReference) × Memᴰ ref r.parent_refs
                    × (get_or ref.group k.gateway_group ≡ k.gateway_group)
                    × (get_or ref.kind "Gateway" ≡ "Gateway")
                    × (g.meta.namespace ≡ get_or ref.namespace r.meta.namespace)
                    × (g.meta.name ≡ ref.name))))
  unfolding link_gateway_to_route
  link_gateway_to_route_lem e p gateways r distinct =
      let gs =
        filter_map (find_gateway_from_parent_ref k gateways r.meta.namespace) r.parent_refs in
      (
        gs,
        rw (same_protocol_refl p) refl,
        λ g. (
          λ m.
              let (ref, n, found) =
                (mem-filter_map (find_gateway_from_parent_ref k gateways r.meta.namespace)
                    r.parent_refs g).0
                  m in
              let (known, accepted, named) =
                (find_gateway_iff k gateways r.meta.namespace ref g distinct).0 found in
              let (group, kind) = (refers_to_gateway_iff k ref).0 accepted in
              let (same_ns, same_name) = (is_parent_iff k r.meta.namespace ref g).0 named in
              (known, (ref, n, group, kind, same_ns, same_name)),
          λ (known, (ref, n, group, kind, same_ns, same_name)).
              (mem-filter_map (find_gateway_from_parent_ref k gateways r.meta.namespace)
                  r.parent_refs g).1
                (
                  ref,
                  n,
                  (find_gateway_iff k gateways r.meta.namespace ref g distinct).1 (
                    known,
                    (refers_to_gateway_iff k ref).1 (group, kind),
                    (is_parent_iff k r.meta.namespace ref g).1 (same_ns, same_name),
                  ),
                ),
        ),
      )
