-- ===== src/Gateway/Total.antt =====
-- NewGatewayAPITopology returns a topology.
use policy_machinery.Gateway.Objects.{ExtensionLaws, gateway_universe-UniverseLaws}
use policy_machinery.Dot.{Dot, DotLaws}
use policy_machinery.Gateway.RoutesReturn.{
  http_route_options-AllGood, grpc_route_options-AllGood, tcp_route_options-AllGood,
  tls_route_options-AllGood, udp_route_options-AllGood,
}
use policy_machinery.Gateway.Returns.{
  IsTyped, AllGood, none_left, one_more, map-some, AllGood-append, AreSafe-foldl, AreSafe-nil,
  AreSafe-cons, with_links-IsGood, with_targetables-IsGood, one_link-IsGood,
  link_gateway_to_route-IsSafe, link_listener_to_route-IsSafe,
}
use policy_machinery.Kubernetes.{Kubernetes}
use policy_machinery.Dot.{Dot}
use policy_machinery.Gateway.Resources.{http, grpc, tcp, tls, udp, service_port, listener}
use policy_machinery.Topology.{
  LinkFunc, with_objects, apply_options, allow_loops_option, with_policies, with_targetables,
  Topology, Error, no_options,
}
use policy_machinery.Gateway.Objects.{Extension, gateway_universe}
use policy_machinery.Prelude.{
  List, Bool, if◌then◌else◌, Bool-cases, Memᴰ, ◌∷◌, inl, [], map, inr, true, flat_map, false,
  Option, ◌≡◌, some, ⊎_elim,
}
use policy_machinery.Gateway.Build.{
  resource_options, topology_options, new_gateway_api_topology, gateway_options, service_options,
}
use policy_machinery.Gateway.Options.{
  GatewayApiTopologyOptions, GatewayApiTopologyOptionsFunc, apply_gateway_options,
}
use policy_machinery.Gateway.Http.{link_gateway_to_http_route, link_listener_to_http_route}
use policy_machinery.Gateway.Grpc.{link_gateway_to_grpc_route, link_listener_to_grpc_route}
use policy_machinery.Gateway.Tcp.{link_gateway_to_tcp_route, link_listener_to_tcp_route}
use policy_machinery.Gateway.Tls.{link_gateway_to_tls_route, link_listener_to_tls_route}
use policy_machinery.Gateway.Udp.{link_gateway_to_udp_route, link_listener_to_udp_route}
use policy_machinery.Gateway.Links.{
  link_gateway_to_listener, link_service_to_service_port, link_gateway_class_to_gateway, as_gateway,
  as_service_port, as_listener,
}
use policy_machinery.Types.{Object}
use policy_machinery.Topology.Graph.{linkables}
use policy_machinery.Topology.Returns.{NeverPanics, new_topology_returns}
use policy_machinery.Gateway.Refs.{service_ports_from_service, listeners_from_gateway}

module _ (k : Kubernetes) (e : Extension) (given : List (LinkFunc (gateway_universe k e))) where
  gateway_options-AllGood :
      (o : GatewayApiTopologyOptions k e) → AllGood k e given (gateway_options k e o)
  unfolding gateway_options link_gateway_to_listener link_gateway_to_http_route
      link_gateway_to_grpc_route link_gateway_to_tcp_route link_gateway_to_tls_route
      link_gateway_to_udp_route link_listener_to_http_route link_listener_to_grpc_route
      link_listener_to_tcp_route link_listener_to_tls_route link_listener_to_udp_route
  gateway_options-AllGood o =
      let listeners = flat_map listeners_from_gateway o.gateways in
      elim (Bool-cases o.expand_gateway_listeners) [
        | inl expanded ↦ rw expanded (
            one_more (with_targetables-IsGood k e given (map listener listeners)) (
              one_more
                (with_links-IsGood k e given _ (
                  AreSafe-cons k e given (link_gateway_to_listener k e) _
                    (inr (λ c typed kind. map-some _ (as_listener k e c) (typed.of_listener kind)))
                    (AreSafe-cons k e given (link_listener_to_http_route k e o.gateways listeners) _
                      (link_listener_to_route-IsSafe k e given http o.gateways listeners)
                      (AreSafe-cons k e given (link_listener_to_grpc_route k e o.gateways listeners)
                        _ (link_listener_to_route-IsSafe k e given grpc o.gateways listeners)
                        (AreSafe-cons k e given
                          (link_listener_to_tcp_route k e o.gateways listeners) _
                          (link_listener_to_route-IsSafe k e given tcp o.gateways listeners)
                          (AreSafe-cons k e given
                            (link_listener_to_tls_route k e o.gateways listeners) _
                            (link_listener_to_route-IsSafe k e given tls o.gateways listeners)
                            (AreSafe-cons k e given
                              (link_listener_to_udp_route k e o.gateways listeners) _
                              (link_listener_to_route-IsSafe k e given udp o.gateways listeners)
                              (AreSafe-nil k e given))))))))
                none_left))
        | inr plain ↦ rw plain (
            one_more
              (with_links-IsGood k e given _ (
                AreSafe-cons k e given (link_gateway_to_http_route k e o.gateways) _
                  (link_gateway_to_route-IsSafe k e given http o.gateways)
                  (AreSafe-cons k e given (link_gateway_to_grpc_route k e o.gateways) _
                    (link_gateway_to_route-IsSafe k e given grpc o.gateways)
                    (AreSafe-cons k e given (link_gateway_to_tcp_route k e o.gateways) _
                      (link_gateway_to_route-IsSafe k e given tcp o.gateways)
                      (AreSafe-cons k e given (link_gateway_to_tls_route k e o.gateways) _
                        (link_gateway_to_route-IsSafe k e given tls o.gateways)
                        (AreSafe-cons k e given (link_gateway_to_udp_route k e o.gateways) _
                          (link_gateway_to_route-IsSafe k e given udp o.gateways)
                          (AreSafe-nil k e given)))))))
              none_left)
      ]

  service_options-AllGood :
      (o : GatewayApiTopologyOptions k e) → AllGood k e given (service_options k e o)
  unfolding service_options link_service_to_service_port
  service_options-AllGood o = elim (Bool-cases o.expand_service_ports) [
    | inl expanded ↦ rw expanded (
        one_more
          (with_targetables-IsGood k e given
            (map service_port (flat_map service_ports_from_service o.services)))
          (one_more
            (one_link-IsGood k e given (link_service_to_service_port k e) (
              inr
                (λ c typed kind. map-some _ (as_service_port k e c) (typed.of_service_port kind))))
            none_left))
    | inr plain ↦ rw plain none_left
  ]

  loops-AllGood :
      (loops : Bool)
      → AllGood k e given (if loops then allow_loops_option (gateway_universe k e) ∷ [] else [])
  unfolding allow_loops_option
  loops-AllGood true = one_more (λ o safe. safe) none_left
  loops-AllGood false = none_left

module _ (k : Kubernetes) (e : Extension) where
  resource_options-AllGood :
      (o : GatewayApiTopologyOptions k e) → AllGood k e o.links (resource_options k e o)
  unfolding resource_options with_objects with_policies with_targetables
      link_gateway_class_to_gateway
  resource_options-AllGood o =
      one_more (λ x safe. safe)
        (one_more (λ x safe. safe)
          (one_more (λ x safe. safe)
            (one_more (λ x safe. safe)
              (one_more (λ x safe. safe)
                (one_more (λ x safe. safe)
                  (one_more (λ x safe. safe)
                    (one_more (λ x safe. safe)
                      (one_more (λ x safe. safe)
                        (one_more (λ x safe. safe)
                          (one_more (with_links-IsGood k e o.links o.links (λ link m. inl m)) (
                            one_more
                              (one_link-IsGood k e o.links
                                (link_gateway_class_to_gateway k e o.gateway_classes)
                                (inr (λ c typed kind.
                                  map-some _ (as_gateway k e c) (typed.of_gateway kind))))
                              none_left)))))))))))

  topology_options-AllGood :
      (o : GatewayApiTopologyOptions k e) → AllGood k e o.links (topology_options k e o)
  unfolding topology_options
  topology_options-AllGood o = AllGood-append k e o.links (resource_options-AllGood o) (
      AllGood-append k e o.links (gateway_options-AllGood k e o.links o) (
        AllGood-append k e o.links (http_route_options-AllGood k e o.links o) (
          AllGood-append k e o.links (grpc_route_options-AllGood k e o.links o) (
            AllGood-append k e o.links (tcp_route_options-AllGood k e o.links o) (
              AllGood-append k e o.links (tls_route_options-AllGood k e o.links o) (
                AllGood-append k e o.links (udp_route_options-AllGood k e o.links o) (
                  AllGood-append k e o.links (service_options-AllGood k e o.links o)
                    (loops-AllGood k e o.links o.allow_topology_loops))))))))

  -- NewGatewayAPITopology returns a topology where the objects to link have the types that their
  -- kinds tell, and the link functions given beside its own do not panic on objects of their kinds.
  pub new_gateway_api_topology_returns :
      {d : Dot} (extension_laws : ExtensionLaws e) (laws : DotLaws d)
      (options : List (GatewayApiTopologyOptionsFunc k e))
      → ((c : Object (gateway_universe k e))
          → Memᴰ c (
              linkables (gateway_universe k e) (
                apply_options
                  (gateway_universe k e)
                  (topology_options k e (apply_gateway_options options))))
          → IsTyped k e c)
      → NeverPanics (gateway_universe k e) d (apply_gateway_options options).links (
          linkables (gateway_universe k e) (
            apply_options
              (gateway_universe k e)
              (topology_options k e (apply_gateway_options options))))
      → (t : Topology (gateway_universe k e) d) × (err : Option Error) × (new_gateway_api_topology k
            e d options
          ≡ some (t, err))
  unfolding new_gateway_api_topology apply_options
  new_gateway_api_topology_returns {d} extension_laws laws options typed quiet =
      let o = apply_gateway_options options in
      let safe =
        AreSafe-foldl k e o.links (topology_options k e o) (no_options (gateway_universe k e))
          (topology_options-AllGood o) (AreSafe-nil k e o.links) in
      new_topology_returns (gateway_universe-UniverseLaws k extension_laws) laws
        (topology_options k e o)
        (λ link c m n kind.
          ⊎_elim (λ own. quiet link c own n kind) (λ asserts. asserts c (typed c n) kind)
            (safe link m))
