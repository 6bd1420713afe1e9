-- ===== src/GatewayExamples.antt =====
-- The theorems on Gateway API resources, at the inputs of Fixture.antt.
use policy_machinery.Dot.Assoc.{assoc_laws}
use policy_machinery.Fixture.{extension-ExtensionLaws}
use mathlib.Core.List.Memᴰ
use policy_machinery.Types.{targetable, Object, GroupKind}
use policy_machinery.Dot.Assoc.{assoc_dot}
use policy_machinery.Prelude.{
  Memᴰ, List, ◌≡◌, some, true, ◌↔◌, ◌∷◌, none, false, [], ⊎_elim, ◌∙◌, sym, get_or, refl, Option,
  subst, ◌==◌, Bool, eq_iff, ap,
}
use policy_machinery.Fixture.Built.{universe, gateway_wrapper, route_wrapper, options}
use policy_machinery.Topology.{
  policies_by_target_ref, apply_options, TopologyOptionsFunc, with_targetables, Topology,
  with_links, attach, Error, index_policies, with_policies, with_objects,
}
use policy_machinery.Gateway.{
  Policy, SectionReference, section_reference_methods, GatewayApiTopologyOptions, gateway_methods,
  Gateway, gateway, meta_locator, link_gateway_to_route, expand_route_rules, route_rule_group_kind,
  route, http, tls, apply_gateway_options, http_route_options, as_objects, grpc, ParentReference,
  grpc_route_options, tcp, tcp_route_options, route_group_kind, tls_route_options, udp,
  udp_route_options, GatewayApiTopologyOptionsFunc, Protocol, topology_options,
  new_gateway_api_topology, with_gateways, gateway_group_kind, resource_options,
  listener_group_kind, gateway_options, service_group_kind, service_options,
  service_port_group_kind, Listener, link_listener_to_route, listener,
}
use policy_machinery.Gateway.Parents.{AreDistinct, link_gateway_to_route_lem}
use policy_machinery.Fixture.{
  kubernetes, extension, service_s, kubernetes-KubernetesLaws, gateway_g,
}
use policy_machinery.Topology.Graph.{linkables}
use policy_machinery.Kubernetes.{namespaced_section_name}
use policy_machinery.Gateway.Locators.{section_reference_locator_lem}
use policy_machinery.Gateway.Returns.{IsTyped}
use policy_machinery.Gateway.Total.{new_gateway_api_topology_returns}
use policy_machinery.Gateway.Listeners.{
  AreDistinctListeners, HasSectionName, IsParent, link_listener_to_route_lem,
}

abbrev one_gateway : List (GatewayApiTopologyOptionsFunc kubernetes extension)
one_gateway = with_gateways (gateway_g ∷ []) ∷ []

other_kind : (a b : GroupKind) → a.kind == b.kind ≡ false → a ≡ b → ⊥
other_kind a b differs same = clash ((eq_iff a.kind b.kind).1 (ap (λ g. g.kind) same)) differs
  where
    clash : {b : Bool} → b ≡ true → b ≡ false → ⊥
    clash e f = cc

gateway-not-route :
    (p : Protocol) → gateway_group_kind kubernetes ≡ route_group_kind kubernetes p → ⊥
gateway-not-route http same = other_kind _ _ refl same
gateway-not-route grpc same = other_kind _ _ refl same
gateway-not-route tcp same = other_kind _ _ refl same
gateway-not-route tls same = other_kind _ _ refl same
gateway-not-route udp same = other_kind _ _ refl same

gateway-not-route_rule :
    (p : Protocol) → gateway_group_kind kubernetes ≡ route_rule_group_kind kubernetes p → ⊥
gateway-not-route_rule http same = other_kind _ _ refl same
gateway-not-route_rule grpc same = other_kind _ _ refl same
gateway-not-route_rule tcp same = other_kind _ _ refl same
gateway-not-route_rule tls same = other_kind _ _ refl same
gateway-not-route_rule udp same = other_kind _ _ refl same

gateway-IsTyped : IsTyped kubernetes extension (targetable (gateway gateway_wrapper))
unfolding gateway_methods
gateway-IsTyped = record {
  of_gateway = λ same e. found e;
  of_listener = λ same.
      absurd
        (other_kind (gateway_group_kind kubernetes) (listener_group_kind kubernetes) refl same);
  of_route = λ p same. absurd (gateway-not-route p same);
  of_route_rule = λ p same. absurd (gateway-not-route_rule p same);
  of_service = λ same.
      absurd (other_kind (gateway_group_kind kubernetes) (service_group_kind kubernetes) refl same);
  of_service_port = λ same.
      absurd
        (other_kind (gateway_group_kind kubernetes) (service_port_group_kind kubernetes) refl same);
}
  where
    found : some gateway_wrapper ≡ none → ⊥
    found e = cc

abbrev one_gateway_given : List (TopologyOptionsFunc universe)
one_gateway_given = topology_options kubernetes extension (apply_gateway_options one_gateway)

one_gateway-IsTyped :
    (c : Object universe)
    → Memᴰ c (linkables universe (apply_options universe one_gateway_given))
    → IsTyped kubernetes extension c
unfolding apply_options linkables attach topology_options resource_options gateway_options
    service_options http_route_options grpc_route_options tcp_route_options tls_route_options
    udp_route_options with_targetables with_policies with_objects with_links gateway_methods
    policies_by_target_ref index_policies
one_gateway-IsTyped c m = subst (IsTyped kubernetes extension) (sym (only m)) gateway-IsTyped
  where
    only : {A : Type 0} {x y : A} → Memᴰ x (y ∷ []) → x ≡ y
    only m = ⊎_elim (λ same. same) (λ later. absurd (Memᴰ.not-nil later)) (Memᴰ.cases_cons m)

new_gateway_api_topology_returns_example :
    (t : Topology universe assoc_dot) × (err : Option Error) × (new_gateway_api_topology kubernetes
        extension assoc_dot one_gateway
      ≡ some (t, err))
new_gateway_api_topology_returns_example =
    new_gateway_api_topology_returns kubernetes extension extension-ExtensionLaws assoc_laws
      one_gateway one_gateway-IsTyped (λ link c m n kind. absurd (Memᴰ.not-nil m))

abbrev service_section : SectionReference
service_section = record {
  target = record { group = ""; kind = "Service"; name = "s"; section_name = some "http" };
  policy_namespace = "ns";
}

section_reference_locator_lem_example :
    (section_reference_methods kubernetes).get_locator service_section
    ≡ namespaced_section_name (meta_locator kubernetes service_s.meta) "http"
section_reference_locator_lem_example =
    section_reference_locator_lem kubernetes-KubernetesLaws service_s.meta service_section refl refl
      refl

gateways-AreDistinct : AreDistinct kubernetes (gateway_wrapper ∷ [])
gateways-AreDistinct g h m n same_ns same_name = only m ∙ sym (only n)
  where
    only :
        {g : Gateway (Policy extension.CustomPolicy)}
        → Memᴰ g (gateway_wrapper ∷ [])
        → g ≡ gateway_wrapper
    only m = ⊎_elim (λ same. same) (λ later. absurd (Memᴰ.not-nil later)) (Memᴰ.cases_cons m)

link_gateway_to_route_lem_example :
    (gs : List (Gateway (Policy extension.CustomPolicy))) × ((link_gateway_to_route kubernetes
          extension http
          (gateway_wrapper ∷ [])).func
        (targetable (route http route_wrapper))
      ≡ some (as_objects kubernetes extension gateway gs))
    × ((g : Gateway (Policy extension.CustomPolicy))
        → Memᴰ g gs ↔ (
            Memᴰ g (gateway_wrapper ∷ [])
            × ((ref : ParentReference) × Memᴰ ref route_wrapper.parent_refs
                × (get_or ref.group kubernetes.gateway_group ≡ kubernetes.gateway_group)
                × (get_or ref.kind "Gateway" ≡ "Gateway")
                × (g.meta.namespace ≡ get_or ref.namespace route_wrapper.meta.namespace)
                × (g.meta.name ≡ ref.name))))
link_gateway_to_route_lem_example =
    link_gateway_to_route_lem kubernetes extension http (gateway_wrapper ∷ []) route_wrapper
      gateways-AreDistinct

abbrev expanding : GatewayApiTopologyOptions kubernetes extension
expanding = expand_route_rules tls (expand_route_rules http (apply_gateway_options options))

abbrev listener_wrapper : Listener (Policy extension.CustomPolicy)
listener_wrapper = record {
  listener = record { name = "l" };
  gateway = gateway_wrapper;
  attached_policies = [];
}

listeners-AreDistinct : AreDistinctListeners kubernetes (listener_wrapper ∷ [])
listeners-AreDistinct l m in_l in_m same_gateway same_name = only in_l ∙ sym (only in_m)
  where
    only : {A : Type 0} {x y : A} → Memᴰ x (y ∷ []) → x ≡ y
    only m = ⊎_elim (λ same. same) (λ later. absurd (Memᴰ.not-nil later)) (Memᴰ.cases_cons m)

link_listener_to_route_lem_example :
    (ls : List (Listener (Policy extension.CustomPolicy))) × ((link_listener_to_route kubernetes
          extension http
          (gateway_wrapper ∷ [])
          (listener_wrapper ∷ [])).func
        (targetable (route http route_wrapper))
      ≡ some (as_objects kubernetes extension listener ls))
    × ((l : Listener (Policy extension.CustomPolicy))
        → Memᴰ l ls ↔ (
            (ref : ParentReference) × Memᴰ ref route_wrapper.parent_refs
            × (Memᴰ l (listener_wrapper ∷ [])
                × HasSectionName kubernetes ref l
                × ((g : Gateway (Policy extension.CustomPolicy)) × Memᴰ g (gateway_wrapper ∷ [])
                    × IsParent kubernetes route_wrapper.meta.namespace ref g
                    × (meta_locator kubernetes l.gateway.meta ≡ meta_locator kubernetes g.meta)))))
link_listener_to_route_lem_example =
    link_listener_to_route_lem kubernetes extension http (gateway_wrapper ∷ [])
      (listener_wrapper ∷ []) route_wrapper gateways-AreDistinct listeners-AreDistinct
