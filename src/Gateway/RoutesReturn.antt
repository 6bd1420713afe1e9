-- ===== src/Gateway/RoutesReturn.antt =====
-- The parts of NewGatewayAPITopology on the routes add no link function that panics on an object of its
-- kind.
use policy_machinery.Gateway.Returns.{
  IsGood, AllGood, none_left, one_more, with_targetables-IsGood, one_link-IsGood, two_links-IsGood,
  link_route_to_route_rule-IsSafe, link_route_to_service-IsSafe, link_route_to_service_port-IsSafe,
  link_route_rule_to_service-IsSafe, link_route_rule_to_service_port-IsSafe,
}
use policy_machinery.Kubernetes.{Kubernetes}
use policy_machinery.Gateway.Resources.{http, grpc, tcp, tls, udp, route_rule}
use policy_machinery.Topology.{LinkFunc, TopologyOptionsFunc}
use policy_machinery.Gateway.Objects.{Extension, gateway_universe}
use policy_machinery.Prelude.{List, Bool, if◌then◌else◌, ◌∷◌, [], map, true, false}
use policy_machinery.Gateway.Options.{GatewayApiTopologyOptions}
use policy_machinery.Gateway.Http.{
  http_route_options, link_http_route_to_http_route_rule, link_http_route_to_service,
  link_http_route_to_service_port, link_http_route_rule_to_service,
  link_http_route_rule_to_service_port, http_route_rules,
}
use policy_machinery.Gateway.Grpc.{
  grpc_route_options, link_grpc_route_to_grpc_route_rule, link_grpc_route_to_service,
  link_grpc_route_to_service_port, link_grpc_route_rule_to_service,
  link_grpc_route_rule_to_service_port, grpc_route_rules,
}
use policy_machinery.Gateway.Tcp.{
  tcp_route_options, link_tcp_route_to_tcp_route_rule, link_tcp_route_to_service,
  link_tcp_route_to_service_port, link_tcp_route_rule_to_service,
  link_tcp_route_rule_to_service_port, tcp_route_rules,
}
use policy_machinery.Gateway.Tls.{
  tls_route_options, link_tls_route_to_tls_route_rule, link_tls_route_to_service,
  link_tls_route_to_service_port, link_tls_route_rule_to_service,
  link_tls_route_rule_to_service_port, tls_route_rules,
}
use policy_machinery.Gateway.Udp.{
  udp_route_options, link_udp_route_to_udp_route_rule, link_udp_route_to_service,
  link_udp_route_to_service_port, link_udp_route_rule_to_service,
  link_udp_route_rule_to_service_port, udp_route_rules,
}

module _ (k : Kubernetes) (e : Extension) (given : List (LinkFunc (gateway_universe k e))) where
  -- the shape of the part on the routes of one protocol
  branches-AllGood :
      (a b c d x y : TopologyOptionsFunc (gateway_universe k e)) (rules ports : Bool)
      → IsGood k e given a
      → IsGood k e given b
      → IsGood k e given c
      → IsGood k e given d
      → IsGood k e given x
      → IsGood k e given y
      → AllGood k e given
          (if rules then a ∷ b ∷ (if ports then c else d) ∷ [] else (if ports then x else y) ∷ [])
  branches-AllGood a b c d x y true true ga gb gc gd gx gy =
      one_more ga (one_more gb (one_more gc none_left))
  branches-AllGood a b c d x y true false ga gb gc gd gx gy =
      one_more ga (one_more gb (one_more gd none_left))
  branches-AllGood a b c d x y false true ga gb gc gd gx gy = one_more gx none_left
  branches-AllGood a b c d x y false false ga gb gc gd gx gy = one_more gy none_left

  pub http_route_options-AllGood :
      (o : GatewayApiTopologyOptions k e) → AllGood k e given (http_route_options k e o)
  unfolding http_route_options link_http_route_to_http_route_rule link_http_route_to_service
      link_http_route_to_service_port link_http_route_rule_to_service
      link_http_route_rule_to_service_port
  http_route_options-AllGood o =
      let rules = http_route_rules k e o in
      let routes = o.http_routes in
      branches-AllGood _ _ _ _ _ _ o.expand_http_route_rules o.expand_service_ports
        (with_targetables-IsGood k e given (map (route_rule http) rules))
        (one_link-IsGood k e given (link_http_route_to_http_route_rule k e)
          (link_route_to_route_rule-IsSafe k e given http))
        (two_links-IsGood k e given (link_http_route_rule_to_service_port k e rules)
          (link_http_route_rule_to_service k e rules true)
          (link_route_rule_to_service_port-IsSafe k e given http rules)
          (link_route_rule_to_service-IsSafe k e given http rules true))
        (one_link-IsGood k e given (link_http_route_rule_to_service k e rules false)
          (link_route_rule_to_service-IsSafe k e given http rules false))
        (two_links-IsGood k e given (link_http_route_to_service_port k e routes)
          (link_http_route_to_service k e routes true)
          (link_route_to_service_port-IsSafe k e given http routes)
          (link_route_to_service-IsSafe k e given http routes true))
        (one_link-IsGood k e given (link_http_route_to_service k e routes false)
          (link_route_to_service-IsSafe k e given http routes false))

  pub grpc_route_options-AllGood :
      (o : GatewayApiTopologyOptions k e) → AllGood k e given (grpc_route_options k e o)
  unfolding grpc_route_options link_grpc_route_to_grpc_route_rule link_grpc_route_to_service
      link_grpc_route_to_service_port link_grpc_route_rule_to_service
      link_grpc_route_rule_to_service_port
  grpc_route_options-AllGood o =
      let rules = grpc_route_rules k e o in
      let routes = o.grpc_routes in
      branches-AllGood _ _ _ _ _ _ o.expand_grpc_route_rules o.expand_service_ports
        (with_targetables-IsGood k e given (map (route_rule grpc) rules))
        (one_link-IsGood k e given (link_grpc_route_to_grpc_route_rule k e)
          (link_route_to_route_rule-IsSafe k e given grpc))
        (two_links-IsGood k e given (link_grpc_route_rule_to_service_port k e rules)
          (link_grpc_route_rule_to_service k e rules true)
          (link_route_rule_to_service_port-IsSafe k e given grpc rules)
          (link_route_rule_to_service-IsSafe k e given grpc rules true))
        (one_link-IsGood k e given (link_grpc_route_rule_to_service k e rules false)
          (link_route_rule_to_service-IsSafe k e given grpc rules false))
        (two_links-IsGood k e given (link_grpc_route_to_service_port k e routes)
          (link_grpc_route_to_service k e routes true)
          (link_route_to_service_port-IsSafe k e given grpc routes)
          (link_route_to_service-IsSafe k e given grpc routes true))
        (one_link-IsGood k e given (link_grpc_route_to_service k e routes false)
          (link_route_to_service-IsSafe k e given grpc routes false))

  pub tcp_route_options-AllGood :
      (o : GatewayApiTopologyOptions k e) → AllGood k e given (tcp_route_options k e o)
  unfolding tcp_route_options link_tcp_route_to_tcp_route_rule link_tcp_route_to_service
      link_tcp_route_to_service_port link_tcp_route_rule_to_service
      link_tcp_route_rule_to_service_port
  tcp_route_options-AllGood o =
      let rules = tcp_route_rules k e o in
      let routes = o.tcp_routes in
      branches-AllGood _ _ _ _ _ _ o.expand_tcp_route_rules o.expand_service_ports
        (with_targetables-IsGood k e given (map (route_rule tcp) rules))
        (one_link-IsGood k e given (link_tcp_route_to_tcp_route_rule k e)
          (link_route_to_route_rule-IsSafe k e given tcp))
        (two_links-IsGood k e given (link_tcp_route_rule_to_service_port k e rules)
          (link_tcp_route_rule_to_service k e rules true)
          (link_route_rule_to_service_port-IsSafe k e given tcp rules)
          (link_route_rule_to_service-IsSafe k e given tcp rules true))
        (one_link-IsGood k e given (link_tcp_route_rule_to_service k e rules false)
          (link_route_rule_to_service-IsSafe k e given tcp rules false))
        (two_links-IsGood k e given (link_tcp_route_to_service_port k e routes)
          (link_tcp_route_to_service k e routes true)
          (link_route_to_service_port-IsSafe k e given tcp routes)
          (link_route_to_service-IsSafe k e given tcp routes true))
        (one_link-IsGood k e given (link_tcp_route_to_service k e routes false)
          (link_route_to_service-IsSafe k e given tcp routes false))

  pub tls_route_options-AllGood :
      (o : GatewayApiTopologyOptions k e) → AllGood k e given (tls_route_options k e o)
  unfolding tls_route_options link_tls_route_to_tls_route_rule link_tls_route_to_service
      link_tls_route_to_service_port link_tls_route_rule_to_service
      link_tls_route_rule_to_service_port
  tls_route_options-AllGood o =
      let rules = tls_route_rules k e o in
      let routes = o.tls_routes in
      branches-AllGood _ _ _ _ _ _ o.expand_tls_route_rules o.expand_service_ports
        (with_targetables-IsGood k e given (map (route_rule tls) rules))
        (one_link-IsGood k e given (link_tls_route_to_tls_route_rule k e)
          (link_route_to_route_rule-IsSafe k e given tls))
        (two_links-IsGood k e given (link_tls_route_rule_to_service_port k e rules)
          (link_tls_route_rule_to_service k e rules true)
          (link_route_rule_to_service_port-IsSafe k e given tls rules)
          (link_route_rule_to_service-IsSafe k e given tls rules true))
        (one_link-IsGood k e given (link_tls_route_to_service k e o.tls_routes false)
          (link_route_to_service-IsSafe k e given tls o.tls_routes false))
        (two_links-IsGood k e given (link_tls_route_to_service_port k e routes)
          (link_tls_route_to_service k e routes true)
          (link_route_to_service_port-IsSafe k e given tls routes)
          (link_route_to_service-IsSafe k e given tls routes true))
        (one_link-IsGood k e given (link_tls_route_to_service k e routes false)
          (link_route_to_service-IsSafe k e given tls routes false))

  pub udp_route_options-AllGood :
      (o : GatewayApiTopologyOptions k e) → AllGood k e given (udp_route_options k e o)
  unfolding udp_route_options link_udp_route_to_udp_route_rule link_udp_route_to_service
      link_udp_route_to_service_port link_udp_route_rule_to_service
      link_udp_route_rule_to_service_port
  udp_route_options-AllGood o =
      let rules = udp_route_rules k e o in
      let routes = o.udp_routes in
      branches-AllGood _ _ _ _ _ _ o.expand_udp_route_rules o.expand_service_ports
        (with_targetables-IsGood k e given (map (route_rule udp) rules))
        (one_link-IsGood k e given (link_udp_route_to_udp_route_rule k e)
          (link_route_to_route_rule-IsSafe k e given udp))
        (two_links-IsGood k e given (link_udp_route_rule_to_service_port k e rules)
          (link_udp_route_rule_to_service k e rules true)
          (link_route_rule_to_service_port-IsSafe k e given udp rules)
          (link_route_rule_to_service-IsSafe k e given udp rules true))
        (one_link-IsGood k e given (link_udp_route_to_service k e o.udp_routes false)
          (link_route_to_service-IsSafe k e given udp o.udp_routes false))
        (two_links-IsGood k e given (link_udp_route_to_service_port k e routes)
          (link_udp_route_to_service k e routes true)
          (link_route_to_service_port-IsSafe k e given udp routes)
          (link_route_to_service-IsSafe k e given udp routes true))
        (one_link-IsGood k e given (link_udp_route_to_service k e routes false)
          (link_route_to_service-IsSafe k e given udp routes false))
