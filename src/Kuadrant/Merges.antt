-- ===== src/Kuadrant/Merges.antt =====
-- The strategies that merge rules, of examples/kuadrant/apis/v1/merge_strategies.go.
use mathlib.Core.Option
use policy_machinery.Prelude.{
  none, some, String, ◌==◌, ◌≡◌, distinct, lookup, true, Bool-cases, arith, if◌then◌else◌, inl, inr,
  ◌∙◌, subst, sym, Option,
}
use policy_machinery.Kuadrant.Policies.{
  RateLimitPolicy, rules_of, with_source, set_rules, empty, MergeableRateLimitPolicySpec,
}
use policy_machinery.Kuadrant.Strategies.{
  map_with_source, add_missing, policy_rule_defaults_merge_strategy, copy_mergeable_policy,
  policy_rule_overrides_merge_strategy, atomic_defaults_merge_strategy, merge, get_merge_strategy,
  defaults_merge_strategy, overrides_merge_strategy, atomic_overrides_merge_strategy, strategy_for,
}
use policy_machinery.Kuadrant.Merged.{rules_of-set_rules}
use policy_machinery.Kuadrant.Valid.{
  IsValid, rules_of-AreRules, map_with_source-AreRules, keys-map_with_source, add_missing-AreRules,
  lookup-map_with_source, lookup-add_missing,
}

module _ {R : Type 0} where
  -- the rules of `a`, and under the other IDs those of `b`, set as the rules of `into`
  merged_into :
      (into a b : RateLimitPolicy R)
      → IsValid a
      → IsValid b
      → (merged : RateLimitPolicy R) × (set_rules into (
            add_missing
              (rules_of a)
              b.locator
              (map_with_source a.locator (rules_of a))
              (rules_of b))
          ≡ some merged)
        × (merged.locator ≡ into.locator)
        × ((k : String)
            → lookup (rules_of merged) k ≡ (elim (lookup (rules_of a) k) [
              | some rule ↦ some (with_source a.locator rule)
              | none ↦ lookup (rules_of b) k
            ]))
  merged_into into a b a_valid b_valid =
      let kept = rules_of a in
      let extra = rules_of b in
      let (kept_are, kept_once) = rules_of-AreRules a a_valid in
      let (extra_are, extra_once) = rules_of-AreRules b b_valid in
      let first = map_with_source a.locator kept in
      let first_are = map_with_source-AreRules a.locator kept a_valid.located kept_are in
      let first_once =
        subst (λ ks. distinct ks ≡ true) (sym (keys-map_with_source a.locator kept)) kept_once in
      let (are, once) =
        add_missing-AreRules kept b.locator first extra first_are extra_are first_once in
      let (merged, set, locator, read) =
        rules_of-set_rules into (add_missing kept b.locator first extra) are once in
      (
        merged,
        set,
        locator,
        λ k.
            read k
            ∙ lookup-add_missing kept b.locator first extra k extra_are extra_once
            ∙ ground (arith, lookup-map_with_source a.locator kept k),
      )

  -- A copy has the rules of the policy, each with the policy as its source.
  copy_mergeable_policy_lem :
      (p : RateLimitPolicy R)
      → IsValid p
      → (copied : RateLimitPolicy R) × (copy_mergeable_policy p ≡ some copied)
        × (copied.locator ≡ p.locator)
        × ((k : String)
            → lookup (rules_of copied) k
              ≡ Option.map (with_source p.locator) (lookup (rules_of p) k))
  unfolding copy_mergeable_policy
  copy_mergeable_policy_lem p valid =
      let rules = rules_of p in
      let (are, once) = rules_of-AreRules p valid in
      let (copied, set, locator, read) =
        rules_of-set_rules p (map_with_source p.locator rules)
          (map_with_source-AreRules p.locator rules valid.located are)
          (subst (λ ks. distinct ks ≡ true) (sym (keys-map_with_source p.locator rules)) once) in
      (copied, set, locator, λ k. read k ∙ lookup-map_with_source p.locator rules k)

module _ {R : Type 0} (source target : RateLimitPolicy R) (source_valid : IsValid source)
    (target_valid : IsValid target) where
  -- The merge of rules as defaults, of a source into a target that both have a locator and limits whose
  -- names are apart and not reserved, returns a policy with the locator of the target. Its rules are those
  -- of the target, each with the target as its source, whatever source it had, and under the other IDs
  -- the rules of the source, each with the source that it had.
  pub policy_rule_defaults_lem :
      (merged : RateLimitPolicy R) × (policy_rule_defaults_merge_strategy source target
        ≡ some merged)
      × (merged.locator ≡ target.locator)
      × ((k : String)
          → lookup (rules_of merged) k ≡ (elim (lookup (rules_of target) k) [
            | some rule ↦ some (with_source target.locator rule)
            | none ↦ lookup (rules_of source) k
          ]))
  unfolding policy_rule_defaults_merge_strategy
  policy_rule_defaults_lem = merged_into target target source target_valid source_valid

  -- The merge of rules as overrides, of a source into a target that both have a locator and limits whose
  -- names are apart and not reserved, returns a policy with the locator of the target. Its rules are those
  -- of the source, each with the source policy as its source, whatever source it had, and under the other
  -- IDs the rules of the target, each with the source that it had.
  pub policy_rule_overrides_lem :
      (merged : RateLimitPolicy R) × (policy_rule_overrides_merge_strategy source target
        ≡ some merged)
      × (merged.locator ≡ target.locator)
      × ((k : String)
          → lookup (rules_of merged) k ≡ (elim (lookup (rules_of source) k) [
            | some rule ↦ some (with_source source.locator rule)
            | none ↦ lookup (rules_of target) k
          ]))
  unfolding policy_rule_overrides_merge_strategy
  policy_rule_overrides_lem = merged_into target source target source_valid target_valid

  -- The atomic defaults, of a source and a target that both have a locator and limits whose names are
  -- apart and not reserved, return a copy of the target where it has limits, and of the source where the
  -- target, though it is there, has none: the policy's locator, and its rules, each with that policy as
  -- its source, whatever source it had.
  pub atomic_defaults_lem :
      (merged : RateLimitPolicy R) × (atomic_defaults_merge_strategy source target ≡ some merged)
      × (merged.locator ≡ (if empty target then source else target).locator)
      × ((k : String)
          → lookup (rules_of merged) k
            ≡ Option.map
                (with_source (if empty target then source else target).locator)
                (lookup (rules_of (if empty target then source else target)) k))
  unfolding atomic_defaults_merge_strategy
  atomic_defaults_lem = elim (Bool-cases (empty target)) [
    | inl none_limited ↦ rw none_limited (copy_mergeable_policy_lem source source_valid)
    | inr limited ↦ rw limited (copy_mergeable_policy_lem target target_valid)
  ]

  -- The merge of a policy with a source, both with a locator and limits whose names are apart and not
  -- reserved, returns a policy, by whichever strategy the source asks for: SetRules does not panic.
  pub merge_returns : (merged : RateLimitPolicy R) × (merge target source ≡ some merged)
  unfolding merge get_merge_strategy defaults_merge_strategy overrides_merge_strategy
      atomic_overrides_merge_strategy
  merge_returns = chosen source.defaults source.overrides
    where
      of_defaults :
          (strategy : String)
          → (merged : RateLimitPolicy R) × (defaults_merge_strategy strategy source target
              ≡ some merged)
      of_defaults strategy = elim (Bool-cases (strategy == "merge")) [
        | inl rules ↦ rw rules (policy_rule_defaults_lem.0, policy_rule_defaults_lem.1)
        | inr atomic ↦ rw atomic (atomic_defaults_lem.0, atomic_defaults_lem.1)
      ]

      of_overrides :
          (strategy : String)
          → (merged : RateLimitPolicy R) × (overrides_merge_strategy strategy source target
              ≡ some merged)
      of_overrides strategy = elim (Bool-cases (strategy == "merge")) [
        | inl rules ↦ rw rules (policy_rule_overrides_lem.0, policy_rule_overrides_lem.1)
        | inr atomic ↦
            let (copied, e, _, _) = copy_mergeable_policy_lem source source_valid in
            rw atomic (copied, e)
      ]

      chosen :
          (defaults overrides : Option (MergeableRateLimitPolicySpec R))
          → (merged : RateLimitPolicy R) × (strategy_for defaults overrides source target
              ≡ some merged)
      chosen (some spec) overrides = of_defaults spec.strategy
      chosen none (some spec) = of_overrides spec.strategy
      chosen none none = (atomic_defaults_lem.0, atomic_defaults_lem.1)
