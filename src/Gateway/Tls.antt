-- ===== src/Gateway/Tls.antt =====
-- The TLS routes of machinery/gateway_api_topology.go: their rules, their links, and the options that
-- NewGatewayAPITopology makes for them.
use policy_machinery.Kubernetes.{Kubernetes}
use policy_machinery.Topology.{LinkFunc, TopologyOptionsFunc, with_targetables, with_links}
use policy_machinery.Prelude.{List, Bool, true, false, [], ◌∷◌, map, flat_map, if◌then◌else◌}
use policy_machinery.Gateway.Objects.{Extension, gateway_universe}
use policy_machinery.Gateway.Options.{GatewayApiTopologyOptions}
use policy_machinery.Gateway.Resources.{
  Gateway, Listener, Route, RouteRule, Policy, route_rule, tls,
}
use policy_machinery.Gateway.Refs.{route_rules_from_route}
use policy_machinery.Gateway.Links.{
  link_gateway_to_route, link_listener_to_route, link_route_to_route_rule, link_route_to_service,
  link_route_to_service_port, link_route_rule_to_service, link_route_rule_to_service_port,
}

unfoldable pub tls_route_rules_from_tls_route : {P : Type 0} → Route P → List (RouteRule P)
unfolding route_rules_from_route
tls_route_rules_from_tls_route = route_rules_from_route

module _ (k : Kubernetes) (e : Extension) where
  unfoldable pub link_gateway_to_tls_route :
      List (Gateway (Policy e.CustomPolicy)) → LinkFunc (gateway_universe k e)
  unfolding link_gateway_to_route
  link_gateway_to_tls_route = link_gateway_to_route k e tls

  unfoldable pub link_listener_to_tls_route :
      List (Gateway (Policy e.CustomPolicy))
      → List (Listener (Policy e.CustomPolicy))
      → LinkFunc (gateway_universe k e)
  unfolding link_listener_to_route
  link_listener_to_tls_route = link_listener_to_route k e tls

  unfoldable pub link_tls_route_to_tls_route_rule : LinkFunc (gateway_universe k e)
  unfolding link_route_to_route_rule
  link_tls_route_to_tls_route_rule = link_route_to_route_rule k e tls

  unfoldable pub link_tls_route_to_service :
      List (Route (Policy e.CustomPolicy)) → Bool → LinkFunc (gateway_universe k e)
  unfolding link_route_to_service
  link_tls_route_to_service = link_route_to_service k e tls

  unfoldable pub link_tls_route_to_service_port :
      List (Route (Policy e.CustomPolicy)) → LinkFunc (gateway_universe k e)
  unfolding link_route_to_service_port
  link_tls_route_to_service_port = link_route_to_service_port k e tls

  unfoldable pub link_tls_route_rule_to_service :
      List (RouteRule (Policy e.CustomPolicy)) → Bool → LinkFunc (gateway_universe k e)
  unfolding link_route_rule_to_service
  link_tls_route_rule_to_service = link_route_rule_to_service k e tls

  unfoldable pub link_tls_route_rule_to_service_port :
      List (RouteRule (Policy e.CustomPolicy)) → LinkFunc (gateway_universe k e)
  unfolding link_route_rule_to_service_port
  link_tls_route_rule_to_service_port = link_route_rule_to_service_port k e tls

  -- the rules of every route
  abbrev pub tls_route_rules :
      GatewayApiTopologyOptions k e → List (RouteRule (Policy e.CustomPolicy))
  tls_route_rules o = flat_map tls_route_rules_from_tls_route o.tls_routes

  -- the part of NewGatewayAPITopology on TLS routes
  unfoldable pub tls_route_options :
      GatewayApiTopologyOptions k e → List (TopologyOptionsFunc (gateway_universe k e))
  unfolding link_tls_route_to_tls_route_rule link_tls_route_to_service
      link_tls_route_to_service_port link_tls_route_rule_to_service
      link_tls_route_rule_to_service_port tls_route_rules_from_tls_route
  tls_route_options o =
      let u = gateway_universe k e in
      let rules = tls_route_rules o in
      let routes = o.tls_routes in
      if o.expand_tls_route_rules
      then with_targetables u (map (route_rule tls) rules)
        ∷ with_links u (link_tls_route_to_tls_route_rule ∷ [])
        ∷ (if o.expand_service_ports
            then with_links u (
                link_tls_route_rule_to_service_port rules
                ∷ link_tls_route_rule_to_service rules true
                ∷ [])
            else with_links u (link_tls_route_to_service routes false ∷ []))
        ∷ []
      else (if o.expand_service_ports
          then with_links u
              (link_tls_route_to_service_port routes ∷ link_tls_route_to_service routes true ∷ [])
          else with_links u (link_tls_route_to_service routes false ∷ []))
        ∷ []
