-- ===== src/Controller/Built.antt =====
-- The topology that the controller builds of its cache, of controller/topology_builder.go.
use policy_machinery.Topology.Policies.{mem-targeting, targeting}
use policy_machinery.Gateway.{
  Extension, ExtensionLaws, Policy, Reference, gateway_universe, apply_gateway_options,
  topology_options, new_gateway_api_topology, gateway_universe-UniverseLaws,
}
use policy_machinery.Kubernetes.{Kubernetes}
use policy_machinery.Controller.Methods.{Objects}
use policy_machinery.Controller.Builder.{
  controller_extension, Casts, build_from_store, GatewayApiTopologyBuilder, builder_options,
}
use policy_machinery.Dot.{Dot, DotLaws}
use policy_machinery.Controller.Cache.{Store}
use policy_machinery.Topology.{Topology, Error}
use policy_machinery.Prelude.{Option, ◌≡◌, some, String, lookup, Memᴰ, ◌↔◌, ◌∙◌, ap, subst, sym}
use policy_machinery.Controller.Given.{FromKinds, >>=-eq-some, builder_options_lem}
use policy_machinery.Topology.Correct.{new_topology_policies}
use policy_machinery.Gateway.Given.{topology_options-policies}

module _ (k : Kubernetes) {e : Extension} (o : Objects) (elaws : ExtensionLaws e) where
  -- RuntimeObject is no targetable
  pub controller_extension-laws : ExtensionLaws (controller_extension k e o)
  controller_extension-laws = record {
    policies-set_policies = elaws.policies-set_policies;
    get_locator-set_policies = elaws.get_locator-set_policies;
    group_kind-set_policies = elaws.group_kind-set_policies;
  }

module _ {k : Kubernetes} {e : Extension} {o : Objects} {d : Dot} (elaws : ExtensionLaws e)
    (laws : DotLaws d) (casts : Casts k e o) where
  -- In the topology that is built of a store of resources, the policies of a targetable are exactly those
  -- that an object of the store, of one of the kinds of policies, is, and that have a target reference to
  -- the targetable's locator.
  pub build_from_store_policies :
      (t : GatewayApiTopologyBuilder k e o) (objs : Store o)
      (topology : Topology (gateway_universe k (controller_extension k e o)) d) (err : Option Error)
      → build_from_store casts d t objs ≡ some (topology, err)
      → (locator : String) (x : (gateway_universe k (controller_extension k e o)).Targetable)
      → lookup topology.targetables locator ≡ some x
      → (p : Policy e.CustomPolicy)
      → Memᴰ p ((gateway_universe k (controller_extension k e o)).policies x) ↔ (
          FromKinds casts objs t.policy_kinds p
          × ((ref : Reference e.CustomReference) × Memᴰ ref
                ((gateway_universe k (controller_extension k e o)).get_target_refs p)
              × ((gateway_universe k (controller_extension k e o)).reference_methods.get_locator ref
                  ≡ locator)))
  unfolding build_from_store new_gateway_api_topology
  build_from_store_policies t objs topology err built locator x found p =
      let ext = controller_extension k e o in
      let u = gateway_universe k ext in
      let (options, made, built') = >>=-eq-some (builder_options casts t objs) _ built in
      let g = apply_gateway_options options in
      let (from_kinds, _, _, _) = builder_options_lem casts objs t made in
      let (_, attached) =
        (new_topology_policies
            (gateway_universe-UniverseLaws k (controller_extension-laws k o elaws)) laws
            (topology_options k ext g) topology err built').0
          locator x found in
      let given = topology_options-policies k ext g in
      let (to, from) = mem-targeting u g.policies locator p in
      let same = attached ∙ ap (λ ps. targeting u ps locator) given in
      (
        λ m. let (there, targets) = to (subst (Memᴰ p) same m) in ((from_kinds p).0 there, targets),
        λ (there, targets). subst (Memᴰ p) (sym same) (from ((from_kinds p).1 there, targets)),
      )
