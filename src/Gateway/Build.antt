-- ===== src/Gateway/Build.antt =====
-- NewGatewayAPITopology, of machinery/gateway_api_topology.go.
use policy_machinery.Kubernetes.{Kubernetes}
use policy_machinery.Dot.{Dot}
use policy_machinery.Topology.{
  TopologyOptionsFunc, Topology, Error, with_targetables, with_links, with_objects, with_policies,
  allow_loops_option, new_topology,
}
use policy_machinery.Prelude.{List, Option, [], ◌∷◌, ◌++◌, map, flat_map, if◌then◌else◌}
use policy_machinery.Gateway.Objects.{Extension, gateway_universe}
use policy_machinery.Gateway.Options.{
  GatewayApiTopologyOptions, GatewayApiTopologyOptionsFunc, apply_gateway_options,
}
use policy_machinery.Gateway.Resources.{
  gateway_class, gateway, listener, route, service, service_port, http, grpc, tcp, tls, udp,
}
use policy_machinery.Gateway.Refs.{listeners_from_gateway, service_ports_from_service}
use policy_machinery.Gateway.Links.{
  link_gateway_class_to_gateway, link_gateway_to_listener, link_service_to_service_port,
}
use policy_machinery.Gateway.Http.{
  link_gateway_to_http_route, link_listener_to_http_route, http_route_options,
}
use policy_machinery.Gateway.Grpc.{
  link_gateway_to_grpc_route, link_listener_to_grpc_route, grpc_route_options,
}
use policy_machinery.Gateway.Tcp.{
  link_gateway_to_tcp_route, link_listener_to_tcp_route, tcp_route_options,
}
use policy_machinery.Gateway.Tls.{
  link_gateway_to_tls_route, link_listener_to_tls_route, tls_route_options,
}
use policy_machinery.Gateway.Udp.{
  link_gateway_to_udp_route, link_listener_to_udp_route, udp_route_options,
}

module _ (k : Kubernetes) (e : Extension) where
  -- the options that are always given
  unfoldable pub resource_options :
      GatewayApiTopologyOptions k e → List (TopologyOptionsFunc (gateway_universe k e))
  resource_options o =
      let u = gateway_universe k e in
      with_objects u o.objects
      ∷ with_policies u o.policies
      ∷ with_targetables u (map gateway_class o.gateway_classes)
      ∷ with_targetables u (map gateway o.gateways)
      ∷ with_targetables u (map (route http) o.http_routes)
      ∷ with_targetables u (map (route grpc) o.grpc_routes)
      ∷ with_targetables u (map (route tcp) o.tcp_routes)
      ∷ with_targetables u (map (route tls) o.tls_routes)
      ∷ with_targetables u (map (route udp) o.udp_routes)
      ∷ with_targetables u (map service o.services)
      ∷ with_links u o.links
      ∷ with_links u (link_gateway_class_to_gateway k e o.gateway_classes ∷ [])
      ∷ []

  -- the part on gateways and listeners
  unfoldable pub gateway_options :
      GatewayApiTopologyOptions k e → List (TopologyOptionsFunc (gateway_universe k e))
  gateway_options o =
      let u = gateway_universe k e in
      let gateways = o.gateways in
      let listeners = flat_map listeners_from_gateway gateways in
      if o.expand_gateway_listeners
      then with_targetables u (map listener listeners)
        ∷ with_links u (
            link_gateway_to_listener k e
            ∷ link_listener_to_http_route k e gateways listeners
            ∷ link_listener_to_grpc_route k e gateways listeners
            ∷ link_listener_to_tcp_route k e gateways listeners
            ∷ link_listener_to_tls_route k e gateways listeners
            ∷ link_listener_to_udp_route k e gateways listeners
            ∷ [])
        ∷ []
      else with_links u (
          link_gateway_to_http_route k e gateways
          ∷ link_gateway_to_grpc_route k e gateways
          ∷ link_gateway_to_tcp_route k e gateways
          ∷ link_gateway_to_tls_route k e gateways
          ∷ link_gateway_to_udp_route k e gateways
          ∷ [])
        ∷ []

  -- the part on service ports
  unfoldable pub service_options :
      GatewayApiTopologyOptions k e → List (TopologyOptionsFunc (gateway_universe k e))
  service_options o =
      let u = gateway_universe k e in
      if o.expand_service_ports
      then with_targetables u (map service_port (flat_map service_ports_from_service o.services))
        ∷ with_links u (link_service_to_service_port k e ∷ [])
        ∷ []
      else []

  -- the options that NewGatewayAPITopology hands to NewTopology
  unfoldable pub topology_options :
      GatewayApiTopologyOptions k e → List (TopologyOptionsFunc (gateway_universe k e))
  unfolding resource_options gateway_options service_options http_route_options grpc_route_options
      tcp_route_options tls_route_options udp_route_options
  topology_options o =
      resource_options o
      ++ (gateway_options o
          ++ (http_route_options k e o
              ++ (grpc_route_options k e o
                  ++ (tcp_route_options k e o
                      ++ (tls_route_options k e o
                          ++ (udp_route_options k e o
                              ++ (service_options o
                                  ++ (if o.allow_topology_loops
                                      then allow_loops_option (gateway_universe k e) ∷ []
                                      else []))))))))

  unfoldable pub new_gateway_api_topology :
      (d : Dot)
      → List (GatewayApiTopologyOptionsFunc k e)
      → Option (Topology (gateway_universe k e) d × Option Error)
  unfolding topology_options
  new_gateway_api_topology d options =
      new_topology (gateway_universe k e) d (topology_options (apply_gateway_options options))
