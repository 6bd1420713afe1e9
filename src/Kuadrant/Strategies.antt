-- ===== src/Kuadrant/Strategies.antt =====
-- examples/kuadrant/apis/v1/merge_strategies.go, and the merge of ratelimitpolicy_types.go. A deep copy
-- is the same value.
use policy_machinery.Prelude.{[], ◌∷◌, none, some, if◌then◌else◌, is_absent, lookup, put}
use policy_machinery.Prelude.{String, List, Option, if◌then◌else◌, some, ◌==◌, none}
use policy_machinery.Kuadrant.Policies.{
  rules_of, RateLimitPolicy, empty, MergeableRule, set_rules, with_source, get_source,
  MergeableRateLimitPolicySpec,
}

module _ {R : Type 0} where
  -- lo.MapValues with mapRuleWithSourceFunc
  abbrev pub map_with_source :
      String → List (String × MergeableRule R) → List (String × MergeableRule R)
  map_with_source locator [] = []
  map_with_source locator ((rule_id, rule) ∷ rules) =
      (rule_id, with_source locator rule) ∷ map_with_source locator rules

  -- the loop of the two strategies that adds the rules that `kept` lacks, each with its origin
  unfoldable pub add_missing :
      List (String × MergeableRule R)
      → String
      → List (String × MergeableRule R)
      → List (String × MergeableRule R)
      → List (String × MergeableRule R)
  add_missing kept locator rules [] = rules
  add_missing kept locator rules ((rule_id, rule) ∷ extra) =
      let origin = if get_source rule == "" then locator else get_source rule in
      let more =
        if is_absent (lookup kept rule_id)
        then put rule_id (with_source origin rule) rules
        else rules in
      add_missing kept locator more extra

  -- copyMergeablePolicy
  unfoldable pub copy_mergeable_policy : RateLimitPolicy R → Option (RateLimitPolicy R)
  unfolding rules_of set_rules
  copy_mergeable_policy p = set_rules p (map_with_source p.locator (rules_of p))

-- The strategies on policies that are not nil; `none` is a panic of SetRules.
abbrev pub MergeStrategy : Type 0 → Type 0
MergeStrategy R = RateLimitPolicy R → RateLimitPolicy R → Option (RateLimitPolicy R)

module _ {R : Type 0} where
  unfoldable pub atomic_defaults_merge_strategy : MergeStrategy R
  unfolding copy_mergeable_policy empty
  atomic_defaults_merge_strategy source target =
      if empty target then copy_mergeable_policy source else copy_mergeable_policy target

  unfoldable pub atomic_overrides_merge_strategy : MergeStrategy R
  unfolding copy_mergeable_policy
  atomic_overrides_merge_strategy source target = copy_mergeable_policy source

  unfoldable pub policy_rule_defaults_merge_strategy : MergeStrategy R
  unfolding add_missing rules_of set_rules
  policy_rule_defaults_merge_strategy source target = set_rules target (
      add_missing (rules_of target) source.locator
        (map_with_source target.locator (rules_of target)) (rules_of source))

  unfoldable pub policy_rule_overrides_merge_strategy : MergeStrategy R
  unfolding add_missing rules_of set_rules
  policy_rule_overrides_merge_strategy source target = set_rules target (
      add_missing (rules_of source) target.locator
        (map_with_source source.locator (rules_of source)) (rules_of target))

  unfoldable pub defaults_merge_strategy : String → MergeStrategy R
  defaults_merge_strategy strategy =
      if strategy == "merge"
      then policy_rule_defaults_merge_strategy
      else atomic_defaults_merge_strategy

  unfoldable pub overrides_merge_strategy : String → MergeStrategy R
  overrides_merge_strategy strategy =
      if strategy == "merge"
      then policy_rule_overrides_merge_strategy
      else atomic_overrides_merge_strategy

  abbrev pub strategy_for :
      Option (MergeableRateLimitPolicySpec R)
      → Option (MergeableRateLimitPolicySpec R)
      → MergeStrategy R
  strategy_for (some spec) overrides = defaults_merge_strategy spec.strategy
  strategy_for none (some spec) = overrides_merge_strategy spec.strategy
  strategy_for none none = atomic_defaults_merge_strategy

  -- `RateLimitPolicy.GetMergeStrategy`
  unfoldable pub get_merge_strategy : RateLimitPolicy R → MergeStrategy R
  get_merge_strategy p = strategy_for p.defaults p.overrides

  -- `RateLimitPolicy.Merge`, with another policy of the kind
  unfoldable pub merge : RateLimitPolicy R → RateLimitPolicy R → Option (RateLimitPolicy R)
  unfolding get_merge_strategy
  merge p source = get_merge_strategy source source p

  -- lo.ReduceRight of EffectivePolicyForPath: the last policy is merged first
  unfoldable pub reduce_right :
      List (RateLimitPolicy R) → RateLimitPolicy R → Option (RateLimitPolicy R)
  unfolding merge
  reduce_right [] effective = some effective
  reduce_right (p ∷ policies) effective = elim (reduce_right policies effective) [
    | none ↦ none
    | some merged ↦ merge merged p
  ]

  -- the last of the policies, if there are any
  abbrev pub last_of : List (RateLimitPolicy R) → Option (RateLimitPolicy R)
  last_of [] = none
  last_of (p ∷ policies) = elim (last_of policies) [ none ↦ some p | some l ↦ some l ]

  -- `EffectivePolicyForPath`, of the policies in the path; the inner `none` is nil
  unfoldable pub effective_policy : List (RateLimitPolicy R) → Option (Option (RateLimitPolicy R))
  unfolding reduce_right
  effective_policy policies = elim (last_of policies) [
    | none ↦ some none
    | some l ↦ elim (reduce_right policies l) [ none ↦ none | some merged ↦ some (some merged) ]
  ]
