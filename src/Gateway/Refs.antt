-- ===== src/Gateway/Refs.antt =====
-- What the link functions of machinery/gateway_api_topology.go find: the sections of a resource, and
-- the resources that a route refers to. The five copies for the protocols differ in their types only.
use policy_machinery.Kubernetes.{Kubernetes}
use policy_machinery.Prelude.{
  String, List, Bool, false, [], map, Option, none, some, ℕ, zero, suc, ◌∷◌, ◌==◌, ◌+◌, ◌&&◌,
  get_or, filter, find, contains_by, if◌then◌else◌, leb, same_number, not, ◌||◌, is_absent,
}
use policy_machinery.Gateway.Resources.{
  Gateway, Listener, Route, RouteRule, RuleSpec, Service, ServicePort, BackendRef, ParentReference,
}
use policy_machinery.Gateway.Methods.{meta_locator}
use Prim.Native.Nat.{◌/◌, ◌%◌}
use Prim.Native.String.{char_at, ◌++◌}

-- fmt.Sprintf("%d", n), with fuel for the digits
decimal_from : ℕ → ℕ → String
decimal_from zero n = ""
decimal_from (suc fuel) n =
    let rest = decimal_from fuel (n / 10) in
    let digit = char_at "0123456789" (n % 10) in
    (if leb n 9 then "" else rest) ++ (String.◌∷◌ digit "")

-- a number has at most as many digits as its successor
unfoldable pub decimal : ℕ → String
unfolding decimal_from
decimal n = decimal_from (suc n) n

-- the backend references that a link to services reads
unfoldable pub for_service : Bool → BackendRef → Bool
for_service strict ref = not strict || is_absent ref.port

module _ {P : Type 0} where
  -- `ListenersFromGatewayFunc`
  unfoldable pub listeners_from_gateway : Gateway P → List (Listener P)
  listeners_from_gateway g =
      map (λ l. record { listener = l; gateway = g; attached_policies = [] }) g.listeners

  -- the rules from the index on
  unfoldable pub rules_from : Route P → ℕ → List RuleSpec → List (RouteRule P)
  unfolding decimal
  rules_from r i [] = []
  rules_from r i (rule ∷ rules) =
      record {
        rule = rule;
        route = r;
        name = get_or rule.name ("rule-" ++ decimal (i + 1));
        attached_policies = [];
      }
      ∷ rules_from r (suc i) rules

  unfoldable pub route_rules_from_route : Route P → List (RouteRule P)
  unfolding rules_from
  route_rules_from_route r = rules_from r 0 r.rules

  -- `ServicePortsFromServiceFunc`
  unfoldable pub service_ports_from_service : Service P → List (ServicePort P)
  service_ports_from_service s =
      map (λ p. record { service_port = p; service = s; attached_policies = [] }) s.ports

  -- `backendRefEqualToService`
  unfoldable pub backend_ref_equal_to_service : BackendRef → Service P → String → Bool
  backend_ref_equal_to_service ref s default_namespace =
      get_or ref.group "" == s.meta.group_kind.group
      && (get_or ref.kind "Service" == s.meta.group_kind.kind
          && (get_or ref.namespace default_namespace == s.meta.namespace
              && ref.name == s.meta.name))

  -- the backend references that a link to service ports reads
  unfoldable pub for_port : ServicePort P → BackendRef → Bool
  for_port p ref = elim ref.port [ none ↦ false | some n ↦ same_number n p.service_port.port ]

  -- some reference of the rule that passes the filter is to the service
  unfoldable pub refers : (BackendRef → Bool) → RuleSpec → Service P → String → Bool
  unfolding backend_ref_equal_to_service
  refers keep rule s default_namespace =
      contains_by (filter keep rule.backend_refs)
        (λ ref. backend_ref_equal_to_service ref s default_namespace)

module _ (k : Kubernetes) where
  -- the parent reference is to a gateway
  unfoldable pub refers_to_gateway : ParentReference → Bool
  refers_to_gateway ref =
      get_or ref.group k.gateway_group == k.gateway_group && get_or ref.kind "Gateway" == "Gateway"

module _ (k : Kubernetes) {P : Type 0} where
  -- the gateway has the namespace and the name of the parent reference
  unfoldable pub is_parent : String → ParentReference → Gateway P → Bool
  is_parent route_namespace ref g =
      g.meta.namespace == get_or ref.namespace route_namespace && g.meta.name == ref.name

  -- `findGatewayFromParentRefFunc`
  unfoldable pub find_gateway_from_parent_ref :
      List (Gateway P) → String → ParentReference → Option (Gateway P)
  unfolding refers_to_gateway is_parent
  find_gateway_from_parent_ref gateways route_namespace ref =
      if refers_to_gateway k ref then find gateways (is_parent route_namespace ref) else none

  -- the listener is one of the gateway
  unfoldable pub is_listener_of : Gateway P → Listener P → Bool
  is_listener_of g l = meta_locator k l.gateway.meta == meta_locator k g.meta

  -- `findListenerFromParentRefFunc`
  unfoldable pub find_listener_from_parent_ref :
      List (Gateway P) → List (Listener P) → String → ParentReference → List (Listener P)
  unfolding find_gateway_from_parent_ref is_listener_of
  find_listener_from_parent_ref gateways listeners route_namespace ref =
      elim (find_gateway_from_parent_ref gateways route_namespace ref) [
        | none ↦ []
        | some g ↦ elim ref.section_name [
          | none ↦ filter (is_listener_of g) listeners
          | some section ↦
              elim (find listeners (λ l. is_listener_of g l && l.listener.name == section)) [
                | none ↦ []
                | some l ↦ l ∷ []
              ]
        ]
      ]
