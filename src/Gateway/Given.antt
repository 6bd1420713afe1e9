-- ===== src/Gateway/Given.antt =====
-- NewGatewayAPITopology: the policies that it gives NewTopology are those of its options.
use policy_machinery.Gateway.Objects.{Extension, gateway_universe}
use policy_machinery.Gateway.Options.{GatewayApiTopologyOptions}
use policy_machinery.Kubernetes.{Kubernetes}
use policy_machinery.Prelude.{
  List, Bool, ◌++◌, if◌then◌else◌, foldl, ◌∷◌, ◌≡◌, [], ◌∙◌, true, false, refl, arith,
}
use policy_machinery.Gateway.Build.{
  gateway_options, service_options, topology_options, resource_options,
}
use policy_machinery.Gateway.Http.{http_route_options}
use policy_machinery.Gateway.Grpc.{grpc_route_options}
use policy_machinery.Gateway.Tcp.{tcp_route_options}
use policy_machinery.Gateway.Tls.{tls_route_options}
use policy_machinery.Gateway.Udp.{udp_route_options}
use policy_machinery.Topology.{
  allow_loops_option, TopologyOptionsFunc, with_targetables, TopologyOptions, with_links,
  with_policies, with_objects, apply_options, no_options,
}

module _ (k : Kubernetes) (e : Extension) where
  -- the options change no policies
  record KeepsPolicies (fs : List (TopologyOptionsFunc (gateway_universe k e))) : Type 0 where
    kept :
        (x : TopologyOptions (gateway_universe k e))
        → (foldl (λ y f. f y) x fs).policies ≡ x.policies

  KeepsPolicies-append :
      {fs gs : List (TopologyOptionsFunc (gateway_universe k e))}
      → KeepsPolicies fs
      → KeepsPolicies gs
      → KeepsPolicies (fs ++ gs)
  KeepsPolicies-append {fs} {gs} keep keep' = record {
    kept = λ x. appended fs x ∙ keep'.kept (foldl (λ y f. f y) x fs) ∙ keep.kept x;
  }
    where
      appended :
          (hs : List (TopologyOptionsFunc (gateway_universe k e)))
          (y : TopologyOptions (gateway_universe k e))
          → (foldl (λ z f. f z) y (hs ++ gs)).policies
            ≡ (foldl (λ z f. f z) (foldl (λ z f. f z) y hs) gs).policies
      appended [] y = refl
      appended (h ∷ hs) y = appended hs (h y)

  gateway_options-KeepsPolicies :
      (o : GatewayApiTopologyOptions k e) → KeepsPolicies (gateway_options k e o)
  unfolding gateway_options with_targetables with_links
  gateway_options-KeepsPolicies o = record { kept = λ x. ground arith }

  service_options-KeepsPolicies :
      (o : GatewayApiTopologyOptions k e) → KeepsPolicies (service_options k e o)
  unfolding service_options with_targetables with_links
  service_options-KeepsPolicies o = record { kept = λ x. ground arith }

  http_route_options-KeepsPolicies :
      (o : GatewayApiTopologyOptions k e) → KeepsPolicies (http_route_options k e o)
  unfolding http_route_options with_targetables with_links
  http_route_options-KeepsPolicies o = record { kept = λ x. ground arith }

  grpc_route_options-KeepsPolicies :
      (o : GatewayApiTopologyOptions k e) → KeepsPolicies (grpc_route_options k e o)
  unfolding grpc_route_options with_targetables with_links
  grpc_route_options-KeepsPolicies o = record { kept = λ x. ground arith }

  tcp_route_options-KeepsPolicies :
      (o : GatewayApiTopologyOptions k e) → KeepsPolicies (tcp_route_options k e o)
  unfolding tcp_route_options with_targetables with_links
  tcp_route_options-KeepsPolicies o = record { kept = λ x. ground arith }

  tls_route_options-KeepsPolicies :
      (o : GatewayApiTopologyOptions k e) → KeepsPolicies (tls_route_options k e o)
  unfolding tls_route_options with_targetables with_links
  tls_route_options-KeepsPolicies o = record { kept = λ x. ground arith }

  udp_route_options-KeepsPolicies :
      (o : GatewayApiTopologyOptions k e) → KeepsPolicies (udp_route_options k e o)
  unfolding udp_route_options with_targetables with_links
  udp_route_options-KeepsPolicies o = record { kept = λ x. ground arith }

  loops-KeepsPolicies :
      (loops : Bool)
      → KeepsPolicies (if loops then allow_loops_option (gateway_universe k e) ∷ [] else [])
  unfolding allow_loops_option
  loops-KeepsPolicies true = record { kept = λ x. refl }
  loops-KeepsPolicies false = record { kept = λ x. refl }

  pub topology_options-policies :
      (o : GatewayApiTopologyOptions k e)
      → (apply_options (gateway_universe k e) (topology_options k e o)).policies ≡ o.policies
  unfolding topology_options resource_options with_policies with_objects with_targetables with_links
      apply_options
  topology_options-policies o =
      (KeepsPolicies-append (gateway_options-KeepsPolicies o) (
          KeepsPolicies-append (http_route_options-KeepsPolicies o) (
            KeepsPolicies-append (grpc_route_options-KeepsPolicies o) (
              KeepsPolicies-append (tcp_route_options-KeepsPolicies o) (
                KeepsPolicies-append (tls_route_options-KeepsPolicies o) (
                  KeepsPolicies-append (udp_route_options-KeepsPolicies o) (
                    KeepsPolicies-append (service_options-KeepsPolicies o)
                      (loops-KeepsPolicies o.allow_topology_loops)))))))).kept
        (foldl (λ y f. f y) (no_options (gateway_universe k e)) (resource_options k e o))
