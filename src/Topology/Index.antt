-- ===== src/Topology/Index.antt =====
-- The map `policiesByTargetRef` of NewTopology, and the targetables with their policies.
use policy_machinery.Prelude.{String, List, [], map, ◌∷◌, if◌then◌else◌, ◌==◌, ◌++◌}
use policy_machinery.Types.{Universe, Object, other, targetable, policy}

module _ (u : Universe) where
  open u use {
    Targetable, Policy, Reference, Other, targetable_methods, policy_methods, reference_methods,
    other_methods, set_policies, get_target_refs,
  }

  -- the inner loop over the target references of a policy; a missing key reads as nil
  unfoldable pub index_policy :
      Policy → (String → List Policy) → List Reference → String → List Policy
  index_policy p m [] = m
  index_policy p m (ref ∷ refs) =
      let key = reference_methods.get_locator ref in
      index_policy p (λ a. if key == a then m key ++ p ∷ [] else m a) refs

  -- the outer loop, over the policies
  unfoldable pub index_policies : (String → List Policy) → List Policy → String → List Policy
  index_policies m [] = m
  index_policies m (p ∷ ps) = index_policies (index_policy p m (get_target_refs p)) ps

  -- the map `policiesByTargetRef`
  unfoldable pub policies_by_target_ref : List Policy → String → List Policy
  policies_by_target_ref = index_policies (λ _. [])

  -- the body of the lo.Map over the targetables
  abbrev pub attach_one : List Policy → Targetable → Targetable
  attach_one ps t = set_policies t (policies_by_target_ref ps (targetable_methods.get_locator t))

  unfoldable pub attach : List Policy → List Targetable → List Targetable
  attach ps = map (attach_one ps)

  -- `linkables`: the objects, the targetables and the policies, in this order
  abbrev pub linkables_of : List Other → List Targetable → List Policy → List (Object u)
  linkables_of os ts ps = map other os ++ (map targetable ts ++ map policy ps)
