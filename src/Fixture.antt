-- ===== src/Fixture.antt =====
-- Small inputs on which the theorems are applied: a gateway class, a gateway with a listener, an HTTP
-- route to it with a rule on a service, and a BackendTLSPolicy on that service.
pub mod Built
pub mod World
pub mod Cluster
use Prim.Native.String.{char_at, ◌++◌}
use policy_machinery.Kubernetes.{Kubernetes, KubernetesLaws}
use policy_machinery.Types.{ObjectMethods}
use policy_machinery.Prelude.{String, none, some, [], ◌∷◌, refl, ◌==◌, if◌then◌else◌}
use policy_machinery.Gateway.{
  Extension, ExtensionLaws, Meta, GatewayClassSpec, GatewaySpec, RouteSpec, ServiceSpec, BackendRef,
  BackendTlsPolicy,
}

abbrev pub kubernetes : Kubernetes
kubernetes = record {
  gateway_group = "gateway.networking.k8s.io";
  core_group = "";
  group_kind_string = λ g. if g.group == "" then g.kind else g.kind ++ ("." ++ g.group);
  separator = char_at "/" 0;
  namespaced_name_string = λ namespace name. namespace ++ (String.◌∷◌ (char_at "/" 0) name);
}

pub kubernetes-KubernetesLaws : KubernetesLaws kubernetes
kubernetes-KubernetesLaws = record { namespaced_name_string_lem = λ namespace name. refl }

abbrev no_methods : ObjectMethods ⊥
no_methods = record {
  group_kind = λ x. absurd x;
  get_namespace = λ x. absurd x;
  get_name = λ x. absurd x;
  get_locator = λ x. absurd x;
}

-- no types beside the machinery's
abbrev pub extension : Extension
extension = record {
  CustomTargetable = ⊥;
  CustomPolicy = ⊥;
  CustomReference = ⊥;
  CustomOther = ⊥;
  targetable_methods = no_methods;
  policy_methods = no_methods;
  reference_methods = no_methods;
  other_methods = no_methods;
  policies = λ x. absurd x;
  set_policies = λ x ps. absurd x;
  get_target_refs = λ x. absurd x;
}

pub extension-ExtensionLaws : ExtensionLaws extension
extension-ExtensionLaws = record {
  policies-set_policies = λ t ps. absurd t;
  get_locator-set_policies = λ t ps. absurd t;
  group_kind-set_policies = λ t ps. absurd t;
}

abbrev pub meta_of : String → String → String → Meta
meta_of group kind name = record {
  group_kind = record { group = group; kind = kind };
  namespace = "ns";
  name = name;
}

abbrev pub class_c : GatewayClassSpec
class_c = record {
  meta = record {
    group_kind = record { group = "gateway.networking.k8s.io"; kind = "GatewayClass" };
    namespace = "";
    name = "c";
  };
}

abbrev pub gateway_g : GatewaySpec
gateway_g = record {
  meta = meta_of "gateway.networking.k8s.io" "Gateway" "g";
  gateway_class_name = "c";
  listeners = record { name = "l" } ∷ [];
}

abbrev pub backend_s : BackendRef
backend_s = record { group = none; kind = none; namespace = none; name = "s"; port = some 80 }

abbrev pub route_r : RouteSpec
route_r = record {
  meta = meta_of "gateway.networking.k8s.io" "HTTPRoute" "r";
  parent_refs =
      record { group = none; kind = none; namespace = none; name = "g"; section_name = none } ∷ [];
  rules = record { name = none; backend_refs = backend_s ∷ [] } ∷ [];
}

abbrev pub service_s : ServiceSpec
service_s = record {
  meta = meta_of "" "Service" "s";
  ports = record { name = "http"; port = 80 } ∷ [];
}

abbrev pub policy_p : BackendTlsPolicy
policy_p = record {
  meta = meta_of "gateway.networking.k8s.io" "BackendTLSPolicy" "p";
  target_refs = record { group = ""; kind = "Service"; name = "s"; section_name = none } ∷ [];
}
