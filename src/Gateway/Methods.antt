-- ===== src/Gateway/Methods.antt =====
-- The methods of the wrappers and of the target references, and the universe that they make.
use policy_machinery.Kubernetes.{Kubernetes, locator_from_object, namespaced_section_name}
use policy_machinery.Gateway.Resources.{
  Meta, Protocol, NamespacedReference, LocalReference, SectionReference, ReferenceGrant,
  BackendTlsPolicy, GatewayClass, Gateway, Listener, Route, RouteRule, Service, ServicePort,
  Namespace, http, grpc, tcp, tls, udp,
}
use policy_machinery.Types.{ObjectMethods, GroupKind}
use policy_machinery.Prelude.{String, none, get_or, some, List, map}
use policy_machinery.Gateway.Kinds.{listener_group_kind, route_rule_group_kind}

module _ (k : Kubernetes) where
  -- `GetLocator` of a resource: `LocatorFromObject` of its kind, namespace and name
  abbrev pub meta_locator : Meta → String
  meta_locator m = locator_from_object k m.group_kind m.namespace m.name

  -- the methods that a resource embeds, with its GetLocator
  abbrev pub resource_methods : {A : Type 0} → (A → Meta) → ObjectMethods A
  resource_methods meta_of = record {
    group_kind = λ a. (meta_of a).group_kind;
    get_namespace = λ a. (meta_of a).namespace;
    get_name = λ a. (meta_of a).name;
    get_locator = λ a. meta_locator (meta_of a);
  }

module _ (k : Kubernetes) (P : Type 0) where
  -- the methods of the interface Targetable
  pub record TargetableMethods (A : Type 0) : Type 0 where
    pub object : ObjectMethods A
    pub policies : A → List P
    pub set_policies : A → List P → A

  unfoldable pub gateway_class_methods : TargetableMethods (GatewayClass P)
  gateway_class_methods = record {
    object = resource_methods k (λ g. g.meta);
    policies = λ g. g.attached_policies;
    set_policies = λ g ps. record g { attached_policies = ps };
  }

  unfoldable pub gateway_methods : TargetableMethods (Gateway P)
  gateway_methods = record {
    object = resource_methods k (λ g. g.meta);
    policies = λ g. g.attached_policies;
    set_policies = λ g ps. record g { attached_policies = ps };
  }

  unfoldable pub listener_methods : TargetableMethods (Listener P)
  unfolding gateway_methods
  listener_methods = record {
    object = record {
      group_kind = λ l. listener_group_kind k;
      get_namespace = λ l. gateway_methods.object.get_namespace l.gateway;
      get_name =
          λ l. namespaced_section_name (gateway_methods.object.get_name l.gateway) l.listener.name;
      get_locator = λ l.
          namespaced_section_name (gateway_methods.object.get_locator l.gateway) l.listener.name;
    };
    policies = λ l. l.attached_policies;
    set_policies = λ l ps. record l { attached_policies = ps };
  }

  abbrev pub route_methods : Protocol → TargetableMethods (Route P)
  route_methods p = record {
    object = resource_methods k (λ r. r.meta);
    policies = λ r. r.attached_policies;
    set_policies = λ r ps. record r { attached_policies = ps };
  }

  abbrev pub route_rule_methods : Protocol → TargetableMethods (RouteRule P)
  route_rule_methods p = record {
    object = record {
      group_kind = λ r. route_rule_group_kind k p;
      get_namespace = λ r. r.route.meta.namespace;
      get_name = λ r. namespaced_section_name r.route.meta.name r.name;
      get_locator = λ r. namespaced_section_name (meta_locator k r.route.meta) r.name;
    };
    policies = λ r. r.attached_policies;
    set_policies = λ r ps. record r { attached_policies = ps };
  }

  unfoldable pub service_methods : TargetableMethods (Service P)
  service_methods = record {
    object = resource_methods k (λ s. s.meta);
    policies = λ s. s.attached_policies;
    set_policies = λ s ps. record s { attached_policies = ps };
  }

  unfoldable pub service_port_methods : TargetableMethods (ServicePort P)
  unfolding service_methods
  service_port_methods = record {
    object = record {
      group_kind = λ p. record { group = ""; kind = "ServicePort" };
      get_namespace = λ p. service_methods.object.get_namespace p.service;
      get_name = λ p. namespaced_section_name p.service.meta.name p.service_port.name;
      get_locator = λ p.
          namespaced_section_name (service_methods.object.get_locator p.service)
            p.service_port.name;
    };
    policies = λ p. p.attached_policies;
    set_policies = λ p ps. record p { attached_policies = ps };
  }

  unfoldable pub namespace_methods : TargetableMethods (Namespace P)
  namespace_methods = record {
    object = resource_methods k (λ n. n.meta);
    policies = λ n. n.attached_policies;
    set_policies = λ n ps. record n { attached_policies = ps };
  }

  -- the methods of both wrappers of a protocol
  pub record RouteMethods : Type 0 where
    pub of_route : TargetableMethods (Route P)
    pub of_rule : TargetableMethods (RouteRule P)

  -- HTTPRoute and HTTPRouteRule
  unfoldable pub http_methods : RouteMethods
  http_methods = record { of_route = route_methods http; of_rule = route_rule_methods http }

  -- GRPCRoute and GRPCRouteRule
  unfoldable pub grpc_methods : RouteMethods
  grpc_methods = record { of_route = route_methods grpc; of_rule = route_rule_methods grpc }

  -- TCPRoute and TCPRouteRule
  unfoldable pub tcp_methods : RouteMethods
  tcp_methods = record { of_route = route_methods tcp; of_rule = route_rule_methods tcp }

  -- TLSRoute and TLSRouteRule
  unfoldable pub tls_methods : RouteMethods
  tls_methods = record { of_route = route_methods tls; of_rule = route_rule_methods tls }

  -- UDPRoute and UDPRouteRule
  unfoldable pub udp_methods : RouteMethods
  udp_methods = record { of_route = route_methods udp; of_rule = route_rule_methods udp }

  unfoldable pub protocol_methods : Protocol → RouteMethods
  unfolding http_methods grpc_methods tcp_methods tls_methods udp_methods
  protocol_methods http = http_methods
  protocol_methods grpc = grpc_methods
  protocol_methods tcp = tcp_methods
  protocol_methods tls = tls_methods
  protocol_methods udp = udp_methods

-- The target references. `GetLocator` of each is LocatorFromObject on its other methods.
module _ (k : Kubernetes) where
  unfoldable pub namespaced_reference_methods : ObjectMethods NamespacedReference
  namespaced_reference_methods =
      let gk : NamespacedReference → GroupKind = λ t. record { group = t.group; kind = t.kind } in
      let namespace = λ (t : NamespacedReference). get_or t.namespace t.policy_namespace in
      record {
        group_kind = gk;
        get_namespace = namespace;
        get_name = λ t. t.name;
        get_locator = λ t. locator_from_object k (gk t) (namespace t) t.name;
      }

  unfoldable pub local_reference_methods : ObjectMethods LocalReference
  local_reference_methods =
      let gk : LocalReference → GroupKind = λ t. record { group = t.group; kind = t.kind } in
      record {
        group_kind = gk;
        get_namespace = λ t. t.policy_namespace;
        get_name = λ t. t.name;
        get_locator = λ t. locator_from_object k (gk t) t.policy_namespace t.name;
      }

  -- `GetName` of LocalPolicyTargetReferenceWithSectionName
  unfoldable pub section_reference_name : SectionReference → String
  section_reference_name t = elim t.target.section_name [
    | none ↦ t.target.name
    | some s ↦ namespaced_section_name t.target.name s
  ]

  unfoldable pub section_reference_methods : ObjectMethods SectionReference
  unfolding section_reference_name
  section_reference_methods =
      let gk : SectionReference → GroupKind =
        λ t. record { group = t.target.group; kind = t.target.kind } in
      record {
        group_kind = gk;
        get_namespace = λ t. t.policy_namespace;
        get_name = section_reference_name;
        get_locator =
            λ t. locator_from_object k (gk t) t.policy_namespace (section_reference_name t);
      }

  unfoldable pub reference_grant_methods : ObjectMethods ReferenceGrant
  reference_grant_methods = resource_methods k (λ o. o.meta)

  -- BackendTLSPolicy
  unfoldable pub backend_tls_policy_methods : ObjectMethods BackendTlsPolicy
  backend_tls_policy_methods = resource_methods k (λ p. p.meta)

  -- `GetTargetRefs` of BackendTLSPolicy
  unfoldable pub backend_tls_target_refs : BackendTlsPolicy → List SectionReference
  backend_tls_target_refs p =
      map (λ item. record { target = item; policy_namespace = p.meta.namespace }) p.target_refs
