-- ===== src/Gateway/Resources.antt =====
-- The wrappers of machinery/gateway_api_types.go and machinery/core_types.go, over the fields of the
-- Gateway API and core types that the program reads. Those types belong to other packages; the fields
-- are theirs.
use policy_machinery.Types.{GroupKind}
use policy_machinery.Prelude.{String, Option, Bool, List, ℕ, true, false}

-- the type and the object metadata that a resource embeds
pub record Meta : Type 0 where
  pub group_kind : GroupKind
  pub namespace : String
  pub name : String

-- gwapiv1.Listener
pub record ListenerSpec : Type 0 where
  pub name : String

-- gwapiv1.ParentReference; an absent pointer is none
pub record ParentReference : Type 0 where
  pub group : Option String
  pub kind : Option String
  pub namespace : Option String
  pub name : String
  pub section_name : Option String

-- gwapiv1.BackendRef, which HTTPBackendRef and GRPCBackendRef embed
pub record BackendRef : Type 0 where
  pub group : Option String
  pub kind : Option String
  pub namespace : Option String
  pub name : String
  pub port : Option ℕ

-- gwapiv1.HTTPRouteRule, GRPCRouteRule, TCPRouteRule, TLSRouteRule and UDPRouteRule
pub record RuleSpec : Type 0 where
  pub name : Option String
  pub backend_refs : List BackendRef

-- core.ServicePort
pub record PortSpec : Type 0 where
  pub name : String
  pub port : ℕ

-- The kinds of routes. Their wrappers have the same fields, so one record serves the five, and the
-- dynamic type of a value is told by the protocol beside it.
pub data Protocol : Type 0 where
  http grpc tcp tls udp : Protocol

abbrev pub same_protocol : Protocol → Protocol → Bool
same_protocol http http = true
same_protocol grpc grpc = true
same_protocol tcp tcp = true
same_protocol tls tls = true
same_protocol udp udp = true
same_protocol _ _ = false

module _ (P : Type 0) where
  pub record GatewayClass : Type 0 where
    pub meta : Meta
    pub attached_policies : List P

  pub record Gateway : Type 0 where
    pub meta : Meta
    pub gateway_class_name : String
    pub listeners : List ListenerSpec
    pub attached_policies : List P

  pub record Listener : Type 0 where
    pub listener : ListenerSpec
    pub gateway : Gateway
    pub attached_policies : List P

  -- HTTPRoute, GRPCRoute, TCPRoute, TLSRoute, UDPRoute
  pub record Route : Type 0 where
    pub meta : Meta
    pub parent_refs : List ParentReference
    pub rules : List RuleSpec
    pub attached_policies : List P

  -- HTTPRouteRule, GRPCRouteRule, TCPRouteRule, TLSRouteRule, UDPRouteRule
  pub record RouteRule : Type 0 where
    pub rule : RuleSpec
    pub route : Route
    pub name : String
    pub attached_policies : List P

  pub record Service : Type 0 where
    pub meta : Meta
    pub ports : List PortSpec
    pub attached_policies : List P

  pub record ServicePort : Type 0 where
    pub service_port : PortSpec
    pub service : Service
    pub attached_policies : List P

  pub record Namespace : Type 0 where
    pub meta : Meta
    pub attached_policies : List P

-- gwapiv1.LocalPolicyTargetReferenceWithSectionName
pub record TargetSpec : Type 0 where
  pub group : String
  pub kind : String
  pub name : String
  pub section_name : Option String

-- BackendTLSPolicy
pub record BackendTlsPolicy : Type 0 where
  pub meta : Meta
  pub target_refs : List TargetSpec

-- The target references of machinery/gateway_api_types.go, each with the namespace of its policy.
pub record NamespacedReference : Type 0 where
  pub group : String
  pub kind : String
  pub name : String
  pub namespace : Option String
  pub policy_namespace : String

pub record LocalReference : Type 0 where
  pub group : String
  pub kind : String
  pub name : String
  pub policy_namespace : String

-- LocalPolicyTargetReferenceWithSectionName
pub record SectionReference : Type 0 where
  pub target : TargetSpec
  pub policy_namespace : String

pub record ReferenceGrant : Type 0 where
  pub meta : Meta

-- the dynamic types behind PolicyTargetReference
pub data Reference (R : Type 0) : Type 0 where
  namespaced_reference : NamespacedReference → Reference R
  local_reference : LocalReference → Reference R
  section_reference : SectionReference → Reference R
  custom_reference : R → Reference R

pub data Policy (P : Type 0) : Type 0 where
  backend_tls_policy : BackendTlsPolicy → Policy P
  custom_policy : P → Policy P

pub data Other (O : Type 0) : Type 0 where
  reference_grant : ReferenceGrant → Other O
  custom_other : O → Other O

-- the dynamic types behind Targetable: those of the two files, and those of other implementers
pub data Targetable (T P : Type 0) : Type 0 where
  gateway_class : GatewayClass (Policy P) → Targetable T P
  gateway : Gateway (Policy P) → Targetable T P
  listener : Listener (Policy P) → Targetable T P
  route : Protocol → Route (Policy P) → Targetable T P
  route_rule : Protocol → RouteRule (Policy P) → Targetable T P
  service : Service (Policy P) → Targetable T P
  service_port : ServicePort (Policy P) → Targetable T P
  namespace : Namespace (Policy P) → Targetable T P
  custom_targetable : T → Targetable T P
