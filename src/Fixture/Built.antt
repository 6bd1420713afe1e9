-- ===== src/Fixture/Built.antt =====
-- The topology of the inputs of Fixture.antt, built by NewGatewayAPITopology, and its collection of
-- targetables.
use policy_machinery.Types.{Universe}
use policy_machinery.Dot.Assoc.{assoc_dot, assoc_laws}
use policy_machinery.Prelude.{Option, none, some, List, [], ◌∷◌, ◌≡◌, refl, get_or, lookup}
use policy_machinery.Topology.{Topology, Error, TopologyOptionsFunc, new_topology}
use policy_machinery.Gateway.{
  GatewayApiTopologyOptionsFunc, gateway_universe, topology_options, apply_gateway_options,
  with_gateway_classes, with_gateways, with_http_routes, with_services, with_gateway_policies,
  backend_tls_policy,
}
use policy_machinery.Topology.{
  apply_options, loop_error, build_topology, base_graph, add_objects_to_graph,
  add_targetables_to_graph, add_policies_to_graph, add_policy_edges, add_target_edges, add_links,
  link_children, link_parents, add_edge_to_graph, attach, index_policy, index_policies,
  policies_by_target_ref, with_targetables, with_policies, with_objects, with_links,
}
use policy_machinery.Dag.{is_dag, loop, build, visit, relax, relax_all}
use policy_machinery.Gateway.{
  resource_options, gateway_options, service_options, http_route_options, grpc_route_options,
  tcp_route_options, tls_route_options, udp_route_options, link_gateway_class_to_gateway,
  link_gateway_to_route, find_gateway_from_parent_ref, refers_to_gateway, is_parent,
  link_route_to_service, refers, for_service, backend_ref_equal_to_service, gateway_class_methods,
  gateway_methods, protocol_methods, http_methods, service_methods, backend_tls_policy_methods,
  backend_tls_target_refs, section_reference_methods, section_reference_name,
  link_gateway_to_http_route, link_http_route_to_service, link_gateway_to_grpc_route,
  link_grpc_route_to_service, link_gateway_to_tcp_route, link_tcp_route_to_service,
  link_gateway_to_tls_route, link_tls_route_to_service, link_gateway_to_udp_route,
  link_udp_route_to_service,
}
use policy_machinery.Kubernetes.{
  locator_from_object, trimmed_name, trim_prefix, to_lower, namespaced_section_name,
}
use policy_machinery.Gateway.{
  Targetable, Gateway, Route, Policy, service, gateway, route, http, gateway_universe-UniverseLaws,
}
use policy_machinery.Fixture.{
  extension-ExtensionLaws, kubernetes, extension, class_c, gateway_g, route_r, service_s, policy_p,
}
use policy_machinery.Dag.Cycle.{IsClosed, IsAcyclic}
use policy_machinery.Collection.Paths.{IsKeyed}
use policy_machinery.Topology.Correct.{new_topology-IsClosed, new_topology_policies}
use policy_machinery.Dag.Correct.{is_dag_iff}
use policy_machinery.Collection.{targetables_of}

abbrev pub options : List (GatewayApiTopologyOptionsFunc kubernetes extension)
options =
    with_gateway_classes (class_c ∷ [])
    ∷ with_gateways (gateway_g ∷ [])
    ∷ with_http_routes (route_r ∷ [])
    ∷ with_services (service_s ∷ [])
    ∷ with_gateway_policies (backend_tls_policy policy_p ∷ [])
    ∷ []

abbrev pub universe : Universe
universe = gateway_universe kubernetes extension

abbrev pub given : List (TopologyOptionsFunc universe)
given = topology_options kubernetes extension (apply_gateway_options options)

abbrev pub built : Topology universe assoc_dot × Option Error
built =
    get_or (new_topology universe assoc_dot given)
      (record { graph = assoc_dot.new_graph; targetables = []; policies = []; objects = [] }, none)

pub built_lem : new_topology universe assoc_dot given ≡ some built
unfolding new_topology apply_options build_topology loop_error base_graph add_objects_to_graph
    add_targetables_to_graph add_policies_to_graph add_policy_edges add_target_edges add_links
    link_children link_parents add_edge_to_graph attach index_policy index_policies
    policies_by_target_ref with_targetables with_policies with_objects with_links is_dag loop build
    visit relax relax_all topology_options resource_options gateway_options service_options
    http_route_options grpc_route_options tcp_route_options tls_route_options udp_route_options
    link_gateway_class_to_gateway link_gateway_to_route find_gateway_from_parent_ref
    refers_to_gateway is_parent link_route_to_service refers for_service
    backend_ref_equal_to_service gateway_class_methods gateway_methods protocol_methods http_methods
    service_methods backend_tls_policy_methods backend_tls_target_refs section_reference_methods
    section_reference_name link_gateway_to_http_route link_http_route_to_service
    link_gateway_to_grpc_route link_grpc_route_to_service link_gateway_to_tcp_route
    link_tcp_route_to_service link_gateway_to_tls_route link_tls_route_to_service
    link_gateway_to_udp_route link_udp_route_to_service locator_from_object trimmed_name trim_prefix
    to_lower namespaced_section_name
built_lem = refl

pub built-IsClosed : IsClosed assoc_dot built.0.graph
built-IsClosed =
    new_topology-IsClosed (gateway_universe-UniverseLaws kubernetes extension-ExtensionLaws)
      assoc_laws given built.0 built.1 built_lem

pub built-IsAcyclic : IsAcyclic assoc_dot built.0.graph
unfolding new_topology apply_options build_topology loop_error base_graph add_objects_to_graph
    add_targetables_to_graph add_policies_to_graph add_policy_edges add_target_edges add_links
    link_children link_parents add_edge_to_graph attach index_policy index_policies
    policies_by_target_ref with_targetables with_policies with_objects with_links is_dag loop build
    visit relax relax_all topology_options resource_options gateway_options service_options
    http_route_options grpc_route_options tcp_route_options tls_route_options udp_route_options
    link_gateway_class_to_gateway link_gateway_to_route find_gateway_from_parent_ref
    refers_to_gateway is_parent link_route_to_service refers for_service
    backend_ref_equal_to_service gateway_class_methods gateway_methods protocol_methods http_methods
    service_methods backend_tls_policy_methods backend_tls_target_refs section_reference_methods
    section_reference_name link_gateway_to_http_route link_http_route_to_service
    link_gateway_to_grpc_route link_grpc_route_to_service link_gateway_to_tcp_route
    link_tcp_route_to_service link_gateway_to_tls_route link_tls_route_to_service
    link_gateway_to_udp_route link_udp_route_to_service locator_from_object trimmed_name trim_prefix
    to_lower namespaced_section_name
built-IsAcyclic = (is_dag_iff assoc_dot built.0.graph assoc_laws built-IsClosed).0 refl

pub built-IsKeyed : IsKeyed (targetables_of built.0)
unfolding targetables_of
built-IsKeyed k x found =
    ((new_topology_policies (gateway_universe-UniverseLaws kubernetes extension-ExtensionLaws)
        assoc_laws given built.0 built.1 built_lem).0
      k x found).0

-- the wrapper of the service, with the policy that targets it
abbrev pub service_with_policy : Targetable extension.CustomTargetable extension.CustomPolicy
service_with_policy = service (record {
  meta = service_s.meta;
  ports = service_s.ports;
  attached_policies = backend_tls_policy policy_p ∷ [];
})

abbrev pub gateway_wrapper : Gateway (Policy extension.CustomPolicy)
gateway_wrapper = record {
  meta = gateway_g.meta;
  gateway_class_name = gateway_g.gateway_class_name;
  listeners = gateway_g.listeners;
  attached_policies = [];
}

abbrev pub route_wrapper : Route (Policy extension.CustomPolicy)
route_wrapper = record {
  meta = route_r.meta;
  parent_refs = route_r.parent_refs;
  rules = route_r.rules;
  attached_policies = [];
}

pub service_found : lookup built.0.targetables "service:ns/s" ≡ some service_with_policy
unfolding new_topology apply_options build_topology loop_error base_graph add_objects_to_graph
    add_targetables_to_graph add_policies_to_graph add_policy_edges add_target_edges add_links
    link_children link_parents add_edge_to_graph attach index_policy index_policies
    policies_by_target_ref with_targetables with_policies with_objects with_links is_dag loop build
    visit relax relax_all topology_options resource_options gateway_options service_options
    http_route_options grpc_route_options tcp_route_options tls_route_options udp_route_options
    link_gateway_class_to_gateway link_gateway_to_route find_gateway_from_parent_ref
    refers_to_gateway is_parent link_route_to_service refers for_service
    backend_ref_equal_to_service gateway_class_methods gateway_methods protocol_methods http_methods
    service_methods backend_tls_policy_methods backend_tls_target_refs section_reference_methods
    section_reference_name link_gateway_to_http_route link_http_route_to_service
    link_gateway_to_grpc_route link_grpc_route_to_service link_gateway_to_tcp_route
    link_tcp_route_to_service link_gateway_to_tls_route link_tls_route_to_service
    link_gateway_to_udp_route link_udp_route_to_service locator_from_object trimmed_name trim_prefix
    to_lower namespaced_section_name
service_found = refl

pub gateway_found :
    lookup built.0.targetables "gateway.gateway.networking.k8s.io:ns/g"
    ≡ some (gateway gateway_wrapper)
unfolding new_topology apply_options build_topology loop_error base_graph add_objects_to_graph
    add_targetables_to_graph add_policies_to_graph add_policy_edges add_target_edges add_links
    link_children link_parents add_edge_to_graph attach index_policy index_policies
    policies_by_target_ref with_targetables with_policies with_objects with_links is_dag loop build
    visit relax relax_all topology_options resource_options gateway_options service_options
    http_route_options grpc_route_options tcp_route_options tls_route_options udp_route_options
    link_gateway_class_to_gateway link_gateway_to_route find_gateway_from_parent_ref
    refers_to_gateway is_parent link_route_to_service refers for_service
    backend_ref_equal_to_service gateway_class_methods gateway_methods protocol_methods http_methods
    service_methods backend_tls_policy_methods backend_tls_target_refs section_reference_methods
    section_reference_name link_gateway_to_http_route link_http_route_to_service
    link_gateway_to_grpc_route link_grpc_route_to_service link_gateway_to_tcp_route
    link_tcp_route_to_service link_gateway_to_tls_route link_tls_route_to_service
    link_gateway_to_udp_route link_udp_route_to_service locator_from_object trimmed_name trim_prefix
    to_lower namespaced_section_name
gateway_found = refl

pub route_found :
    lookup built.0.targetables "httproute.gateway.networking.k8s.io:ns/r"
    ≡ some (route http route_wrapper)
unfolding new_topology apply_options build_topology loop_error base_graph add_objects_to_graph
    add_targetables_to_graph add_policies_to_graph add_policy_edges add_target_edges add_links
    link_children link_parents add_edge_to_graph attach index_policy index_policies
    policies_by_target_ref with_targetables with_policies with_objects with_links is_dag loop build
    visit relax relax_all topology_options resource_options gateway_options service_options
    http_route_options grpc_route_options tcp_route_options tls_route_options udp_route_options
    link_gateway_class_to_gateway link_gateway_to_route find_gateway_from_parent_ref
    refers_to_gateway is_parent link_route_to_service refers for_service
    backend_ref_equal_to_service gateway_class_methods gateway_methods protocol_methods http_methods
    service_methods backend_tls_policy_methods backend_tls_target_refs section_reference_methods
    section_reference_name link_gateway_to_http_route link_http_route_to_service
    link_gateway_to_grpc_route link_grpc_route_to_service link_gateway_to_tcp_route
    link_tcp_route_to_service link_gateway_to_tls_route link_tls_route_to_service
    link_gateway_to_udp_route link_udp_route_to_service locator_from_object trimmed_name trim_prefix
    to_lower namespaced_section_name
route_found = refl
