-- ===== src/Gateway/Links.antt =====
-- The link functions of machinery/gateway_api_topology.go, each written once for the routes of every
-- protocol: the five copies of each differ in their types only. A type assertion on the child gives
-- `none`, which is a panic, when the child has another type.
use mathlib.Core.Option
use policy_machinery.Kubernetes.{Kubernetes}
use policy_machinery.Types.{Object, targetable}
use policy_machinery.Topology.{LinkFunc}
use policy_machinery.Prelude.{
  List, Bool, [], ◌∷◌, map, Option, none, some, filter, filter_map, flat_map, find, contains_by,
  ◌==◌, if◌then◌else◌,
}
use policy_machinery.Gateway.Objects.{Extension, gateway_universe}
use policy_machinery.Gateway.Resources.{
  GatewayClass, Gateway, Listener, Route, RouteRule, Service, ServicePort, BackendRef, Policy,
  Protocol, same_protocol, gateway_class, gateway, listener, route, route_rule, service,
  service_port,
}
use policy_machinery.Gateway.Kinds.{
  gateway_class_group_kind, gateway_group_kind, listener_group_kind, route_group_kind,
  route_rule_group_kind, service_group_kind, service_port_group_kind,
}
use policy_machinery.Gateway.Refs.{
  find_gateway_from_parent_ref, find_listener_from_parent_ref, refers, for_service, for_port,
}

-- the routes with a rule that has such a reference to the service
abbrev pub routes_to :
    {P : Type 0} → (BackendRef → Bool) → Service P → List (Route P) → List (Route P)
routes_to keep s = filter (λ r. contains_by r.rules (λ rule. refers keep rule s r.meta.namespace))

-- the rules that have such a reference to the service
abbrev pub rules_to :
    {P : Type 0} → (BackendRef → Bool) → Service P → List (RouteRule P) → List (RouteRule P)
rules_to keep s = filter (λ r. refers keep r.rule s r.route.meta.namespace)

module _ (k : Kubernetes) (e : Extension) where
  -- the type assertions
  abbrev pub as_gateway : Object (gateway_universe k e) → Option (Gateway (Policy e.CustomPolicy))
  as_gateway (targetable (gateway g)) = some g
  as_gateway _ = none

  abbrev pub as_listener : Object (gateway_universe k e) → Option (Listener (Policy e.CustomPolicy))
  as_listener (targetable (listener l)) = some l
  as_listener _ = none

  abbrev pub as_route :
      Protocol → Object (gateway_universe k e) → Option (Route (Policy e.CustomPolicy))
  as_route p (targetable (route q r)) = if same_protocol p q then some r else none
  as_route p _ = none

  abbrev pub as_route_rule :
      Protocol → Object (gateway_universe k e) → Option (RouteRule (Policy e.CustomPolicy))
  as_route_rule p (targetable (route_rule q r)) = if same_protocol p q then some r else none
  as_route_rule p _ = none

  abbrev pub as_service : Object (gateway_universe k e) → Option (Service (Policy e.CustomPolicy))
  as_service (targetable (service s)) = some s
  as_service _ = none

  abbrev pub as_service_port :
      Object (gateway_universe k e) → Option (ServicePort (Policy e.CustomPolicy))
  as_service_port (targetable (service_port p)) = some p
  as_service_port _ = none

  -- the values of one type as objects, none of them nil
  abbrev pub as_objects :
      {A : Type 0}
      → (A → (gateway_universe k e).Targetable)
      → List A
      → List (Option (Object (gateway_universe k e)))
  as_objects wrap = map (λ a. some (targetable (wrap a)))

  -- `LinkGatewayClassToGatewayFunc`
  unfoldable pub link_gateway_class_to_gateway :
      List (GatewayClass (Policy e.CustomPolicy)) → LinkFunc (gateway_universe k e)
  link_gateway_class_to_gateway classes = record {
    from = gateway_class_group_kind k;
    to = gateway_group_kind k;
    func = λ child.
        Option.map
          (λ g. elim (find classes (λ c. c.meta.name == g.gateway_class_name)) [
            | none ↦ []
            | some c ↦ as_objects gateway_class (c ∷ [])
          ])
          (as_gateway child);
  }

  -- `LinkGatewayToListenerFunc`
  unfoldable pub link_gateway_to_listener : LinkFunc (gateway_universe k e)
  link_gateway_to_listener = record {
    from = gateway_group_kind k;
    to = listener_group_kind k;
    func = λ child. Option.map (λ l. as_objects gateway (l.gateway ∷ [])) (as_listener child);
  }

  -- `LinkServiceToServicePortFunc`
  unfoldable pub link_service_to_service_port : LinkFunc (gateway_universe k e)
  link_service_to_service_port = record {
    from = service_group_kind k;
    to = service_port_group_kind k;
    func = λ child. Option.map (λ p. as_objects service (p.service ∷ [])) (as_service_port child);
  }

  module _ (p : Protocol) where
    -- `LinkGatewayTo…RouteFunc`
    unfoldable pub link_gateway_to_route :
        List (Gateway (Policy e.CustomPolicy)) → LinkFunc (gateway_universe k e)
    link_gateway_to_route gateways = record {
      from = gateway_group_kind k;
      to = route_group_kind k p;
      func = λ child.
          Option.map
            (λ r.
              as_objects gateway (
                filter_map (find_gateway_from_parent_ref k gateways r.meta.namespace)
                  r.parent_refs))
            (as_route p child);
    }

    -- `LinkListenerTo…RouteFunc`
    unfoldable pub link_listener_to_route :
        List (Gateway (Policy e.CustomPolicy))
        → List (Listener (Policy e.CustomPolicy))
        → LinkFunc (gateway_universe k e)
    link_listener_to_route gateways listeners = record {
      from = listener_group_kind k;
      to = route_group_kind k p;
      func = λ child.
          Option.map
            (λ r. as_objects listener (
              flat_map (find_listener_from_parent_ref k gateways listeners r.meta.namespace)
                r.parent_refs))
            (as_route p child);
    }

    -- `Link…RouteTo…RouteRuleFunc`
    unfoldable pub link_route_to_route_rule : LinkFunc (gateway_universe k e)
    link_route_to_route_rule = record {
      from = route_group_kind k p;
      to = route_rule_group_kind k p;
      func = λ child. Option.map (λ r. as_objects (route p) (r.route ∷ [])) (as_route_rule p child);
    }

    -- `Link…RouteToServiceFunc`
    unfoldable pub link_route_to_service :
        List (Route (Policy e.CustomPolicy)) → Bool → LinkFunc (gateway_universe k e)
    link_route_to_service routes strict = record {
      from = route_group_kind k p;
      to = service_group_kind k;
      func = λ child.
          Option.map (λ s. as_objects (route p) (routes_to (for_service strict) s routes))
            (as_service child);
    }

    -- `Link…RouteToServicePortFunc`
    unfoldable pub link_route_to_service_port :
        List (Route (Policy e.CustomPolicy)) → LinkFunc (gateway_universe k e)
    link_route_to_service_port routes = record {
      from = route_group_kind k p;
      to = service_port_group_kind k;
      func = λ child.
          Option.map (λ sp. as_objects (route p) (routes_to (for_port sp) sp.service routes))
            (as_service_port child);
    }

    -- `Link…RouteRuleToServiceFunc`
    unfoldable pub link_route_rule_to_service :
        List (RouteRule (Policy e.CustomPolicy)) → Bool → LinkFunc (gateway_universe k e)
    link_route_rule_to_service rules strict = record {
      from = route_rule_group_kind k p;
      to = service_group_kind k;
      func = λ child.
          Option.map (λ s. as_objects (route_rule p) (rules_to (for_service strict) s rules))
            (as_service child);
    }

    -- `Link…RouteRuleToServicePortFunc`
    unfoldable pub link_route_rule_to_service_port :
        List (RouteRule (Policy e.CustomPolicy)) → LinkFunc (gateway_universe k e)
    link_route_rule_to_service_port rules = record {
      from = route_rule_group_kind k p;
      to = service_port_group_kind k;
      func = λ child.
          Option.map (λ sp. as_objects (route_rule p) (rules_to (for_port sp) sp.service rules))
            (as_service_port child);
    }
