-- ===== src/Fixture/Cluster.antt =====
-- A store with a service and a policy on it, and the topology that the controller builds of it.
use policy_machinery.Topology.{with_targetables, with_policies, with_objects, with_links}
use policy_machinery.Fixture.World.{resources, Resource}
use policy_machinery.Fixture.{extension, kubernetes, service_s, policy_p}
use policy_machinery.Gateway.{
  backend_tls_policy, backend_tls_policy_methods, backend_tls_target_refs,
  find_listener_from_parent_ref, gateway_options, gateway_universe, grpc_route_options,
  http_route_options, link_gateway_class_to_gateway, link_gateway_to_listener,
  link_listener_to_grpc_route, link_listener_to_http_route, link_listener_to_route,
  link_listener_to_tcp_route, link_listener_to_tls_route, link_listener_to_udp_route,
  link_service_to_service_port, new_gateway_api_topology, resource_options,
  section_reference_methods, section_reference_name, service, service_methods, service_options,
  service_port_methods, service_ports_from_service, tcp_route_options, tls_route_options,
  topology_options, udp_route_options,
}
use policy_machinery.Types.{GroupKind, Universe, same_kind}
use policy_machinery.Controller.{
  Store, Casts, GatewayApiTopologyBuilder, build_from_store, controller_extension, builder_options,
  objects_as, policies_of_kinds, objects_of_kinds, filter_by_group_kind, store_filter,
}
use policy_machinery.Topology.{
  Topology, Error, new_topology, apply_options, loop_error, build_topology, base_graph,
  add_objects_to_graph, add_targetables_to_graph, add_policies_to_graph, add_policy_edges,
  add_target_edges, add_links, link_children, link_parents, add_edge_to_graph, attach, index_policy,
  index_policies, policies_by_target_ref,
}
use policy_machinery.Prelude.{
  ◌∷◌, none, [], if◌then◌else◌, Option, false, some, get_or, String, ◌≡◌, lookup, refl,
}
use policy_machinery.Dot.Assoc.{assoc_dot}
use policy_machinery.Dag.{is_dag, loop, build, visit, relax, relax_all}
use policy_machinery.Kubernetes.{
  locator_from_object, namespaced_section_name, to_lower, trim_prefix, trimmed_name,
}

abbrev pub services : GroupKind
services = record { group = ""; kind = "Service" }

abbrev pub backend_tls_policies : GroupKind
backend_tls_policies = record { group = "gateway.networking.k8s.io"; kind = "BackendTLSPolicy" }

abbrev pub service_resource : Resource
service_resource = record { uid = "1"; kind = services; namespace = "ns"; name = "s"; spec = "" }

abbrev pub policy_resource : Resource
policy_resource = record {
  uid = "2";
  kind = backend_tls_policies;
  namespace = "ns";
  name = "p";
  spec = "";
}

abbrev pub cluster : Store resources
cluster = ("1", service_resource) ∷ ("2", policy_resource) ∷ []

-- an object is of the type of its kind
abbrev pub casts : Casts kubernetes extension resources
casts = record {
  as_gateway_class = λ x. none;
  as_gateway = λ x. none;
  as_http_route = λ x. none;
  as_grpc_route = λ x. none;
  as_service = λ x. if same_kind x.kind services then some service_s else none;
  as_policy = λ x.
      if same_kind x.kind backend_tls_policies then some (backend_tls_policy policy_p) else none;
  as_machinery_object = λ x. none;
}

abbrev pub builder : GatewayApiTopologyBuilder kubernetes extension resources
builder = record {
  policy_kinds = backend_tls_policies ∷ [];
  object_kinds = [];
  object_links = [];
  allow_topology_loops = false;
}

abbrev pub cluster_universe : Universe
cluster_universe = gateway_universe kubernetes (controller_extension kubernetes extension resources)

abbrev pub cluster_built : Topology cluster_universe assoc_dot × Option Error
cluster_built =
    get_or (build_from_store casts assoc_dot builder cluster)
      (record { graph = assoc_dot.new_graph; targetables = []; policies = []; objects = [] }, none)

pub cluster_built_lem : build_from_store casts assoc_dot builder cluster ≡ some cluster_built
unfolding build_from_store builder_options objects_as policies_of_kinds objects_of_kinds
    filter_by_group_kind store_filter new_gateway_api_topology new_topology apply_options
    build_topology loop_error base_graph add_objects_to_graph add_targetables_to_graph
    add_policies_to_graph add_policy_edges add_target_edges add_links link_children link_parents
    add_edge_to_graph attach index_policy index_policies policies_by_target_ref with_targetables
    with_policies with_objects with_links is_dag loop build visit relax relax_all topology_options
    resource_options gateway_options service_options http_route_options grpc_route_options
    tcp_route_options tls_route_options udp_route_options link_gateway_class_to_gateway
    backend_tls_policy_methods backend_tls_target_refs section_reference_methods
    section_reference_name service_methods service_port_methods service_ports_from_service
    link_service_to_service_port locator_from_object trimmed_name trim_prefix to_lower
    namespaced_section_name link_gateway_to_listener link_listener_to_http_route
    link_listener_to_grpc_route link_listener_to_tcp_route link_listener_to_tls_route
    link_listener_to_udp_route link_listener_to_route find_listener_from_parent_ref
cluster_built_lem = refl

abbrev pub service_locator : String
service_locator = "service:ns/s"

abbrev pub cluster_service : cluster_universe.Targetable
cluster_service = service (record {
  meta = service_s.meta;
  ports = service_s.ports;
  attached_policies = backend_tls_policy policy_p ∷ [];
})

pub cluster_service_found :
    lookup cluster_built.0.targetables service_locator ≡ some cluster_service
unfolding build_from_store builder_options objects_as policies_of_kinds objects_of_kinds
    filter_by_group_kind store_filter new_gateway_api_topology new_topology apply_options
    build_topology loop_error base_graph add_objects_to_graph add_targetables_to_graph
    add_policies_to_graph add_policy_edges add_target_edges add_links link_children link_parents
    add_edge_to_graph attach index_policy index_policies policies_by_target_ref with_targetables
    with_policies with_objects with_links is_dag loop build visit relax relax_all topology_options
    resource_options gateway_options service_options http_route_options grpc_route_options
    tcp_route_options tls_route_options udp_route_options link_gateway_class_to_gateway
    backend_tls_policy_methods backend_tls_target_refs section_reference_methods
    section_reference_name service_methods service_port_methods service_ports_from_service
    link_service_to_service_port locator_from_object trimmed_name trim_prefix to_lower
    namespaced_section_name link_gateway_to_listener link_listener_to_http_route
    link_listener_to_grpc_route link_listener_to_tcp_route link_listener_to_tls_route
    link_listener_to_udp_route link_listener_to_route find_listener_from_parent_ref
cluster_service_found = refl
