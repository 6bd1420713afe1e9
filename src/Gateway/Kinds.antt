-- ===== src/Gateway/Kinds.antt =====
-- The group kinds of machinery/gateway_api_types.go and machinery/core_types.go.
use policy_machinery.Kubernetes.{Kubernetes}
use policy_machinery.Prelude.{String}
use policy_machinery.Types.{GroupKind}
use policy_machinery.Gateway.Resources.{Protocol, http, grpc, tcp, tls, udp}

module _ (k : Kubernetes) where
  abbrev gateway_kind_of : String → GroupKind
  gateway_kind_of kind = record { group = k.gateway_group; kind = kind }

  abbrev pub gateway_class_group_kind : GroupKind
  gateway_class_group_kind = gateway_kind_of "GatewayClass"

  abbrev pub gateway_group_kind : GroupKind
  gateway_group_kind = gateway_kind_of "Gateway"

  abbrev pub listener_group_kind : GroupKind
  listener_group_kind = gateway_kind_of "Listener"

  -- HTTPRouteGroupKind, GRPCRouteGroupKind, TCPRouteGroupKind, TLSRouteGroupKind, UDPRouteGroupKind
  abbrev pub route_group_kind : Protocol → GroupKind
  route_group_kind http = gateway_kind_of "HTTPRoute"
  route_group_kind grpc = gateway_kind_of "GRPCRoute"
  route_group_kind tcp = gateway_kind_of "TCPRoute"
  route_group_kind tls = gateway_kind_of "TLSRoute"
  route_group_kind udp = gateway_kind_of "UDPRoute"

  -- HTTPRouteRuleGroupKind and the others
  abbrev pub route_rule_group_kind : Protocol → GroupKind
  route_rule_group_kind http = gateway_kind_of "HTTPRouteRule"
  route_rule_group_kind grpc = gateway_kind_of "GRPCRouteRule"
  route_rule_group_kind tcp = gateway_kind_of "TCPRouteRule"
  route_rule_group_kind tls = gateway_kind_of "TLSRouteRule"
  route_rule_group_kind udp = gateway_kind_of "UDPRouteRule"

  abbrev pub service_group_kind : GroupKind
  service_group_kind = record { group = k.core_group; kind = "Service" }

  abbrev pub service_port_group_kind : GroupKind
  service_port_group_kind = record { group = k.core_group; kind = "ServicePort" }
