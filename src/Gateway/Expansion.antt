-- ===== src/Gateway/Expansion.antt =====
-- The links to services where rules are expanded and service ports are not, of NewGatewayAPITopology
-- in machinery/gateway_api_topology.go.
use mathlib.Core.List.Memᴰ
use policy_machinery.Kubernetes.{Kubernetes}
use policy_machinery.Prelude.{List, Memᴰ, ◌≡◌}
use policy_machinery.Types.{GroupKind}
use policy_machinery.Topology.{LinkFunc, apply_options, TopologyOptionsFunc}
use policy_machinery.Gateway.Objects.{Extension, gateway_universe}
use policy_machinery.Gateway.Kinds.{service_group_kind}

module _ (k : Kubernetes) (e : Extension) where
  -- some of the links goes to services, and every one that does comes from that kind
  abbrev LinkedFrom : GroupKind → List (LinkFunc (gateway_universe k e)) → Type 0
  LinkedFrom from links =
      ((link : LinkFunc (gateway_universe k e)) × Memᴰ link links
        × (link.to ≡ service_group_kind k)
        × (link.from ≡ from))
      × ((link : LinkFunc (gateway_universe k e))
          → Memᴰ link links
          → link.to ≡ service_group_kind k
          → link.from ≡ from)

  abbrev pub ServicesLinkedFrom :
      GroupKind → List (TopologyOptionsFunc (gateway_universe k e)) → Type 0
  ServicesLinkedFrom from options =
      LinkedFrom from (apply_options (gateway_universe k e) options).links
