-- ===== src/Gateway/Http.antt =====
-- The HTTP routes of machinery/gateway_api_topology.go: their rules, their links, and the options that
-- NewGatewayAPITopology makes for them.
use policy_machinery.Kubernetes.{Kubernetes}
use policy_machinery.Topology.{LinkFunc, TopologyOptionsFunc, with_targetables, with_links}
use policy_machinery.Prelude.{List, Bool, true, false, [], ◌∷◌, map, flat_map, if◌then◌else◌}
use policy_machinery.Gateway.Objects.{Extension, gateway_universe}
use policy_machinery.Gateway.Options.{GatewayApiTopologyOptions}
use policy_machinery.Gateway.Resources.{
  Gateway, Listener, Route, RouteRule, Policy, route_rule, http,
}
use policy_machinery.Gateway.Refs.{route_rules_from_route}
use policy_machinery.Gateway.Links.{
  link_gateway_to_route, link_listener_to_route, link_route_to_route_rule, link_route_to_service,
  link_route_to_service_port, link_route_rule_to_service, link_route_rule_to_service_port,
}

unfoldable pub http_route_rules_from_http_route : {P : Type 0} → Route P → List (RouteRule P)
unfolding route_rules_from_route
http_route_rules_from_http_route = route_rules_from_route

module _ (k : Kubernetes) (e : Extension) where
  unfoldable pub link_gateway_to_http_route :
      List (Gateway (Policy e.CustomPolicy)) → LinkFunc (gateway_universe k e)
  unfolding link_gateway_to_route
  link_gateway_to_http_route = link_gateway_to_route k e http

  unfoldable pub link_listener_to_http_route :
      List (Gateway (Policy e.CustomPolicy))
      → List (Listener (Policy e.CustomPolicy))
      → LinkFunc (gateway_universe k e)
  unfolding link_listener_to_route
  link_listener_to_http_route = link_listener_to_route k e http

  unfoldable pub link_http_route_to_http_route_rule : LinkFunc (gateway_universe k e)
  unfolding link_route_to_route_rule
  link_http_route_to_http_route_rule = link_route_to_route_rule k e http

  unfoldable pub link_http_route_to_service :
      List (Route (Policy e.CustomPolicy)) → Bool → LinkFunc (gateway_universe k e)
  unfolding link_route_to_service
  link_http_route_to_service = link_route_to_service k e http

  unfoldable pub link_http_route_to_service_port :
      List (Route (Policy e.CustomPolicy)) → LinkFunc (gateway_universe k e)
  unfolding link_route_to_service_port
  link_http_route_to_service_port = link_route_to_service_port k e http

  unfoldable pub link_http_route_rule_to_service :
      List (RouteRule (Policy e.CustomPolicy)) → Bool → LinkFunc (gateway_universe k e)
  unfolding link_route_rule_to_service
  link_http_route_rule_to_service = link_route_rule_to_service k e http

  unfoldable pub link_http_route_rule_to_service_port :
      List (RouteRule (Policy e.CustomPolicy)) → LinkFunc (gateway_universe k e)
  unfolding link_route_rule_to_service_port
  link_http_route_rule_to_service_port = link_route_rule_to_service_port k e http

  -- the rules of every route
  abbrev pub http_route_rules :
      GatewayApiTopologyOptions k e → List (RouteRule (Policy e.CustomPolicy))
  http_route_rules o = flat_map http_route_rules_from_http_route o.http_routes

  -- the part of NewGatewayAPITopology on HTTP routes
  unfoldable pub http_route_options :
      GatewayApiTopologyOptions k e → List (TopologyOptionsFunc (gateway_universe k e))
  unfolding link_http_route_to_http_route_rule link_http_route_to_service
      link_http_route_to_service_port link_http_route_rule_to_service
      link_http_route_rule_to_service_port http_route_rules_from_http_route
  http_route_options o =
      let u = gateway_universe k e in
      let rules = http_route_rules o in
      let routes = o.http_routes in
      if o.expand_http_route_rules
      then with_targetables u (map (route_rule http) rules)
        ∷ with_links u (link_http_route_to_http_route_rule ∷ [])
        ∷ (if o.expand_service_ports
            then with_links u (
                link_http_route_rule_to_service_port rules
                ∷ link_http_route_rule_to_service rules true
                ∷ [])
            else with_links u (link_http_route_rule_to_service rules false ∷ []))
        ∷ []
      else (if o.expand_service_ports
          then with_links u
              (link_http_route_to_service_port routes ∷ link_http_route_to_service routes true ∷ [])
          else with_links u (link_http_route_to_service routes false ∷ []))
        ∷ []
