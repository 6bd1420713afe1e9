-- ===== src/Gateway/Options.antt =====
-- The options of NewGatewayAPITopology, in machinery/gateway_api_topology.go.
use policy_machinery.Kubernetes.{Kubernetes}
use policy_machinery.Gateway.Objects.{Extension, gateway_universe}
use policy_machinery.Prelude.{String, List, Bool, true, false, [], ◌++◌, map, foldl}
use policy_machinery.Gateway.Resources.{
  Meta, ListenerSpec, ParentReference, RuleSpec, PortSpec, GatewayClass, Gateway, Route, Service,
  Policy, Other, Protocol, http, grpc, tcp, tls, udp,
}
use policy_machinery.Topology.{LinkFunc}

-- gwapiv1.GatewayClass
pub record GatewayClassSpec : Type 0 where
  pub meta : Meta

-- gwapiv1.Gateway
pub record GatewaySpec : Type 0 where
  pub meta : Meta
  pub gateway_class_name : String
  pub listeners : List ListenerSpec

-- gwapiv1.HTTPRoute, and the other routes
pub record RouteSpec : Type 0 where
  pub meta : Meta
  pub parent_refs : List ParentReference
  pub rules : List RuleSpec

-- core.Service
pub record ServiceSpec : Type 0 where
  pub meta : Meta
  pub ports : List PortSpec

-- the wrapper of a route
abbrev wrap_route : {P : Type 0} → RouteSpec → Route P
wrap_route r = record {
  meta = r.meta;
  parent_refs = r.parent_refs;
  rules = r.rules;
  attached_policies = [];
}

module _ (k : Kubernetes) (e : Extension) where
  pub record GatewayApiTopologyOptions : Type 0 where
    pub gateway_classes : List (GatewayClass (Policy e.CustomPolicy))
    pub gateways : List (Gateway (Policy e.CustomPolicy))
    pub http_routes : List (Route (Policy e.CustomPolicy))
    pub grpc_routes : List (Route (Policy e.CustomPolicy))
    pub tcp_routes : List (Route (Policy e.CustomPolicy))
    pub tls_routes : List (Route (Policy e.CustomPolicy))
    pub udp_routes : List (Route (Policy e.CustomPolicy))
    pub services : List (Service (Policy e.CustomPolicy))
    pub policies : List (Policy e.CustomPolicy)
    pub objects : List (Other e.CustomOther)
    pub links : List (LinkFunc (gateway_universe k e))
    pub expand_gateway_listeners : Bool
    pub expand_http_route_rules : Bool
    pub expand_grpc_route_rules : Bool
    pub expand_tcp_route_rules : Bool
    pub expand_tls_route_rules : Bool
    pub expand_udp_route_rules : Bool
    pub expand_service_ports : Bool
    pub allow_topology_loops : Bool

  abbrev pub GatewayApiTopologyOptionsFunc : Type 0
  GatewayApiTopologyOptionsFunc = GatewayApiTopologyOptions → GatewayApiTopologyOptions

module _ {k : Kubernetes} {e : Extension} where
  abbrev pub no_gateway_options : GatewayApiTopologyOptions k e
  no_gateway_options = record {
    gateway_classes = [];
    gateways = [];
    http_routes = [];
    grpc_routes = [];
    tcp_routes = [];
    tls_routes = [];
    udp_routes = [];
    services = [];
    policies = [];
    objects = [];
    links = [];
    expand_gateway_listeners = false;
    expand_http_route_rules = false;
    expand_grpc_route_rules = false;
    expand_tcp_route_rules = false;
    expand_tls_route_rules = false;
    expand_udp_route_rules = false;
    expand_service_ports = false;
    allow_topology_loops = false;
  }

  abbrev pub with_gateway_classes : List GatewayClassSpec → GatewayApiTopologyOptionsFunc k e
  with_gateway_classes gs o = record o {
    gateway_classes =
        o.gateway_classes
        ++ map (λ (g : GatewayClassSpec). record { meta = g.meta; attached_policies = [] }) gs;
  }

  abbrev pub with_gateways : List GatewaySpec → GatewayApiTopologyOptionsFunc k e
  with_gateways gs o = record o {
    gateways =
        o.gateways
        ++ map
            (λ (g : GatewaySpec). record {
              meta = g.meta;
              gateway_class_name = g.gateway_class_name;
              listeners = g.listeners;
              attached_policies = [];
            })
            gs;
  }

  abbrev pub with_http_routes : List RouteSpec → GatewayApiTopologyOptionsFunc k e
  with_http_routes rs o = record o { http_routes = o.http_routes ++ map wrap_route rs }

  abbrev pub with_grpc_routes : List RouteSpec → GatewayApiTopologyOptionsFunc k e
  with_grpc_routes rs o = record o { grpc_routes = o.grpc_routes ++ map wrap_route rs }

  abbrev pub with_tcp_routes : List RouteSpec → GatewayApiTopologyOptionsFunc k e
  with_tcp_routes rs o = record o { tcp_routes = o.tcp_routes ++ map wrap_route rs }

  abbrev pub with_tls_routes : List RouteSpec → GatewayApiTopologyOptionsFunc k e
  with_tls_routes rs o = record o { tls_routes = o.tls_routes ++ map wrap_route rs }

  abbrev pub with_udp_routes : List RouteSpec → GatewayApiTopologyOptionsFunc k e
  with_udp_routes rs o = record o { udp_routes = o.udp_routes ++ map wrap_route rs }

  abbrev pub with_services : List ServiceSpec → GatewayApiTopologyOptionsFunc k e
  with_services ss o = record o {
    services =
        o.services
        ++ map
            (λ (s : ServiceSpec). record { meta = s.meta; ports = s.ports; attached_policies = [] })
            ss;
  }

  abbrev pub with_gateway_policies :
      List (Policy e.CustomPolicy) → GatewayApiTopologyOptionsFunc k e
  with_gateway_policies ps o = record o { policies = o.policies ++ ps }

  abbrev pub with_gateway_objects : List (Other e.CustomOther) → GatewayApiTopologyOptionsFunc k e
  with_gateway_objects os o = record o { objects = o.objects ++ os }

  abbrev pub with_gateway_links :
      List (LinkFunc (gateway_universe k e)) → GatewayApiTopologyOptionsFunc k e
  with_gateway_links ls o = record o { links = o.links ++ ls }

  abbrev pub expand_gateway_listeners : GatewayApiTopologyOptionsFunc k e
  expand_gateway_listeners o = record o { expand_gateway_listeners = true }

  abbrev pub expand_route_rules : Protocol → GatewayApiTopologyOptionsFunc k e
  expand_route_rules http o = record o { expand_http_route_rules = true }
  expand_route_rules grpc o = record o { expand_grpc_route_rules = true }
  expand_route_rules tcp o = record o { expand_tcp_route_rules = true }
  expand_route_rules tls o = record o { expand_tls_route_rules = true }
  expand_route_rules udp o = record o { expand_udp_route_rules = true }

  abbrev pub expand_service_ports : GatewayApiTopologyOptionsFunc k e
  expand_service_ports o = record o { expand_service_ports = true }

  abbrev pub allow_topology_loops : GatewayApiTopologyOptionsFunc k e
  allow_topology_loops o = record o { allow_topology_loops = true }

  abbrev pub apply_gateway_options :
      List (GatewayApiTopologyOptionsFunc k e) → GatewayApiTopologyOptions k e
  apply_gateway_options = foldl (λ o f. f o) no_gateway_options
