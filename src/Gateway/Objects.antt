-- ===== src/Gateway/Objects.antt =====
-- The types of the machinery as dynamic types behind its interfaces: the universe that a topology of
-- Gateway API objects stands on, over the types of other implementers.
use policy_machinery.Kubernetes.{Kubernetes}
use policy_machinery.Types.{Universe, UniverseLaws, ObjectMethods, GroupKind}
use policy_machinery.Prelude.{String, List, ◌≡◌, refl, map}
use policy_machinery.Gateway.Resources.{
  Targetable, Policy, Reference, Other, gateway_class, gateway, listener, route, route_rule,
  service, service_port, namespace, custom_targetable, backend_tls_policy, custom_policy,
  namespaced_reference, local_reference, section_reference, custom_reference, reference_grant,
  custom_other, http, grpc, tcp, tls, udp,
}
use policy_machinery.Gateway.Methods.{
  gateway_class_methods, gateway_methods, listener_methods, protocol_methods, http_methods,
  grpc_methods, tcp_methods, tls_methods, udp_methods, service_methods, service_port_methods,
  namespace_methods, namespaced_reference_methods, local_reference_methods,
  section_reference_methods, reference_grant_methods, backend_tls_policy_methods,
  backend_tls_target_refs,
}

-- what the methods of an object return
record Identity : Type 0 where
  group_kind : GroupKind
  namespace : String
  name : String
  locator : String

abbrev identify : {A : Type 0} → ObjectMethods A → A → Identity
identify m a = record {
  group_kind = m.group_kind a;
  namespace = m.get_namespace a;
  name = m.get_name a;
  locator = m.get_locator a;
}

abbrev methods_by : {A : Type 0} → (A → Identity) → ObjectMethods A
methods_by identity = record {
  group_kind = λ a. (identity a).group_kind;
  get_namespace = λ a. (identity a).namespace;
  get_name = λ a. (identity a).name;
  get_locator = λ a. (identity a).locator;
}

-- The types of other implementers of the interfaces.
pub record Extension : Type 1 where
  pub CustomTargetable : Type 0
  pub CustomPolicy : Type 0
  pub CustomReference : Type 0
  pub CustomOther : Type 0
  pub targetable_methods : ObjectMethods CustomTargetable
  pub policy_methods : ObjectMethods CustomPolicy
  pub reference_methods : ObjectMethods CustomReference
  pub other_methods : ObjectMethods CustomOther
  pub policies : CustomTargetable → List (Policy CustomPolicy)
  pub set_policies : CustomTargetable → List (Policy CustomPolicy) → CustomTargetable
  pub get_target_refs : CustomPolicy → List (Reference CustomReference)

-- A custom targetable keeps the policies that it is given, and its identity.
pub record ExtensionLaws (e : Extension) : Type 0 where
  pub policies-set_policies :
      (t : e.CustomTargetable) (ps : List (Policy e.CustomPolicy))
      → e.policies (e.set_policies t ps) ≡ ps
  pub get_locator-set_policies :
      (t : e.CustomTargetable) (ps : List (Policy e.CustomPolicy))
      → e.targetable_methods.get_locator (e.set_policies t ps) ≡ e.targetable_methods.get_locator t
  pub group_kind-set_policies :
      (t : e.CustomTargetable) (ps : List (Policy e.CustomPolicy))
      → e.targetable_methods.group_kind (e.set_policies t ps) ≡ e.targetable_methods.group_kind t

module _ (k : Kubernetes) (e : Extension) where
  abbrev targetable_identity : Targetable e.CustomTargetable e.CustomPolicy → Identity
  targetable_identity (gateway_class g) =
      identify (gateway_class_methods k (Policy e.CustomPolicy)).object g
  targetable_identity (gateway g) = identify (gateway_methods k (Policy e.CustomPolicy)).object g
  targetable_identity (listener l) = identify (listener_methods k (Policy e.CustomPolicy)).object l
  targetable_identity (route p r) =
      identify (protocol_methods k (Policy e.CustomPolicy) p).of_route.object r
  targetable_identity (route_rule p r) =
      identify (protocol_methods k (Policy e.CustomPolicy) p).of_rule.object r
  targetable_identity (service s) = identify (service_methods k (Policy e.CustomPolicy)).object s
  targetable_identity (service_port p) =
      identify (service_port_methods k (Policy e.CustomPolicy)).object p
  targetable_identity (namespace n) =
      identify (namespace_methods k (Policy e.CustomPolicy)).object n
  targetable_identity (custom_targetable t) = identify e.targetable_methods t

  abbrev policy_identity : Policy e.CustomPolicy → Identity
  policy_identity (backend_tls_policy p) = identify (backend_tls_policy_methods k) p
  policy_identity (custom_policy p) = identify e.policy_methods p

  abbrev reference_identity : Reference e.CustomReference → Identity
  reference_identity (namespaced_reference t) = identify (namespaced_reference_methods k) t
  reference_identity (local_reference t) = identify (local_reference_methods k) t
  reference_identity (section_reference t) = identify (section_reference_methods k) t
  reference_identity (custom_reference t) = identify e.reference_methods t

  abbrev other_identity : Other e.CustomOther → Identity
  other_identity (reference_grant o) = identify (reference_grant_methods k) o
  other_identity (custom_other o) = identify e.other_methods o

  abbrev policies_of : Targetable e.CustomTargetable e.CustomPolicy → List (Policy e.CustomPolicy)
  policies_of (gateway_class g) = (gateway_class_methods k (Policy e.CustomPolicy)).policies g
  policies_of (gateway g) = (gateway_methods k (Policy e.CustomPolicy)).policies g
  policies_of (listener l) = (listener_methods k (Policy e.CustomPolicy)).policies l
  policies_of (route p r) = (protocol_methods k (Policy e.CustomPolicy) p).of_route.policies r
  policies_of (route_rule p r) = (protocol_methods k (Policy e.CustomPolicy) p).of_rule.policies r
  policies_of (service s) = (service_methods k (Policy e.CustomPolicy)).policies s
  policies_of (service_port p) = (service_port_methods k (Policy e.CustomPolicy)).policies p
  policies_of (namespace n) = (namespace_methods k (Policy e.CustomPolicy)).policies n
  policies_of (custom_targetable t) = e.policies t

  abbrev give_policies :
      Targetable e.CustomTargetable e.CustomPolicy
      → List (Policy e.CustomPolicy)
      → Targetable e.CustomTargetable e.CustomPolicy
  give_policies (gateway_class g) ps =
      gateway_class ((gateway_class_methods k (Policy e.CustomPolicy)).set_policies g ps)
  give_policies (gateway g) ps =
      gateway ((gateway_methods k (Policy e.CustomPolicy)).set_policies g ps)
  give_policies (listener l) ps =
      listener ((listener_methods k (Policy e.CustomPolicy)).set_policies l ps)
  give_policies (route p r) ps =
      route p ((protocol_methods k (Policy e.CustomPolicy) p).of_route.set_policies r ps)
  give_policies (route_rule p r) ps =
      route_rule p ((protocol_methods k (Policy e.CustomPolicy) p).of_rule.set_policies r ps)
  give_policies (service s) ps =
      service ((service_methods k (Policy e.CustomPolicy)).set_policies s ps)
  give_policies (service_port p) ps =
      service_port ((service_port_methods k (Policy e.CustomPolicy)).set_policies p ps)
  give_policies (namespace n) ps =
      namespace ((namespace_methods k (Policy e.CustomPolicy)).set_policies n ps)
  give_policies (custom_targetable t) ps = custom_targetable (e.set_policies t ps)

  abbrev target_refs_of : Policy e.CustomPolicy → List (Reference e.CustomReference)
  target_refs_of (backend_tls_policy p) = map section_reference (backend_tls_target_refs k p)
  target_refs_of (custom_policy p) = e.get_target_refs p

  abbrev pub gateway_universe : Universe
  gateway_universe = record {
    Targetable = Targetable e.CustomTargetable e.CustomPolicy;
    Policy = Policy e.CustomPolicy;
    Reference = Reference e.CustomReference;
    Other = Other e.CustomOther;
    targetable_methods = methods_by targetable_identity;
    policy_methods = methods_by policy_identity;
    reference_methods = methods_by reference_identity;
    other_methods = methods_by other_identity;
    policies = policies_of;
    set_policies = give_policies;
    get_target_refs = target_refs_of;
  }

module _ (k : Kubernetes) {e : Extension} (laws : ExtensionLaws e) where
  policies-give_policies :
      (t : Targetable e.CustomTargetable e.CustomPolicy) (ps : List (Policy e.CustomPolicy))
      → policies_of k e (give_policies k e t ps) ≡ ps
  unfolding gateway_class_methods gateway_methods listener_methods protocol_methods http_methods
      grpc_methods tcp_methods tls_methods udp_methods service_methods service_port_methods
      namespace_methods
  policies-give_policies (gateway_class g) ps = refl
  policies-give_policies (gateway g) ps = refl
  policies-give_policies (listener l) ps = refl
  policies-give_policies (service s) ps = refl
  policies-give_policies (service_port p) ps = refl
  policies-give_policies (namespace n) ps = refl
  policies-give_policies (route http r) ps = refl
  policies-give_policies (route grpc r) ps = refl
  policies-give_policies (route tcp r) ps = refl
  policies-give_policies (route tls r) ps = refl
  policies-give_policies (route udp r) ps = refl
  policies-give_policies (route_rule http r) ps = refl
  policies-give_policies (route_rule grpc r) ps = refl
  policies-give_policies (route_rule tcp r) ps = refl
  policies-give_policies (route_rule tls r) ps = refl
  policies-give_policies (route_rule udp r) ps = refl
  policies-give_policies (custom_targetable t) ps = laws.policies-set_policies t ps

  locator-give_policies :
      (t : Targetable e.CustomTargetable e.CustomPolicy) (ps : List (Policy e.CustomPolicy))
      → (targetable_identity k e (give_policies k e t ps)).locator
        ≡ (targetable_identity k e t).locator
  unfolding gateway_class_methods gateway_methods listener_methods protocol_methods http_methods
      grpc_methods tcp_methods tls_methods udp_methods service_methods service_port_methods
      namespace_methods
  locator-give_policies (gateway_class g) ps = refl
  locator-give_policies (gateway g) ps = refl
  locator-give_policies (listener l) ps = refl
  locator-give_policies (service s) ps = refl
  locator-give_policies (service_port p) ps = refl
  locator-give_policies (namespace n) ps = refl
  locator-give_policies (route http r) ps = refl
  locator-give_policies (route grpc r) ps = refl
  locator-give_policies (route tcp r) ps = refl
  locator-give_policies (route tls r) ps = refl
  locator-give_policies (route udp r) ps = refl
  locator-give_policies (route_rule http r) ps = refl
  locator-give_policies (route_rule grpc r) ps = refl
  locator-give_policies (route_rule tcp r) ps = refl
  locator-give_policies (route_rule tls r) ps = refl
  locator-give_policies (route_rule udp r) ps = refl
  locator-give_policies (custom_targetable t) ps = laws.get_locator-set_policies t ps

  group_kind-give_policies :
      (t : Targetable e.CustomTargetable e.CustomPolicy) (ps : List (Policy e.CustomPolicy))
      → (targetable_identity k e (give_policies k e t ps)).group_kind
        ≡ (targetable_identity k e t).group_kind
  unfolding gateway_class_methods gateway_methods listener_methods protocol_methods http_methods
      grpc_methods tcp_methods tls_methods udp_methods service_methods service_port_methods
      namespace_methods
  group_kind-give_policies (gateway_class g) ps = refl
  group_kind-give_policies (gateway g) ps = refl
  group_kind-give_policies (listener l) ps = refl
  group_kind-give_policies (service s) ps = refl
  group_kind-give_policies (service_port p) ps = refl
  group_kind-give_policies (namespace n) ps = refl
  group_kind-give_policies (route http r) ps = refl
  group_kind-give_policies (route grpc r) ps = refl
  group_kind-give_policies (route tcp r) ps = refl
  group_kind-give_policies (route tls r) ps = refl
  group_kind-give_policies (route udp r) ps = refl
  group_kind-give_policies (route_rule http r) ps = refl
  group_kind-give_policies (route_rule grpc r) ps = refl
  group_kind-give_policies (route_rule tcp r) ps = refl
  group_kind-give_policies (route_rule tls r) ps = refl
  group_kind-give_policies (route_rule udp r) ps = refl
  group_kind-give_policies (custom_targetable t) ps = laws.group_kind-set_policies t ps

  -- The machinery's types keep the policies that they are given, and their identity.
  pub gateway_universe-UniverseLaws : UniverseLaws (gateway_universe k e)
  gateway_universe-UniverseLaws = record {
    policies-set_policies = policies-give_policies;
    get_locator-set_policies = locator-give_policies;
    group_kind-set_policies = group_kind-give_policies;
  }
