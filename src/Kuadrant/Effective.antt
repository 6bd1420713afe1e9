-- ===== src/Kuadrant/Effective.antt =====
-- The policies that the merges of EffectivePolicyForPath in examples/kuadrant/apis/v1/merge_strategies.go
-- return can be merged again.
use mathlib.Core.Option
use policy_machinery.Prelude.{
  [], ◌∷◌, none, some, refl, List, String, Memᴰ, ◌≡◌, lookup, ◌==◌, Bool-cases, none-ne-some,
  contains, false, Option-cases, keys, inl, lookup-keys, distinct, subst, sym, inr, true,
  some-injective, ◌∙◌, Option, ap,
}
use policy_machinery.Kuadrant.Policies.{limits_of}
use policy_machinery.Kuadrant.Policies.{
  set_rules, RateLimitPolicy, Limit, MergeableRule, rules_of, empty, proper,
  RateLimitPolicySpecProper, MergeableRateLimitPolicySpec, set_proper,
  rules_key_top_level_predicates,
}
use policy_machinery.Kuadrant.Strategies.{
  copy_mergeable_policy, last_of, add_missing, atomic_defaults_merge_strategy, merge,
  get_merge_strategy, map_with_source, defaults_merge_strategy, overrides_merge_strategy,
  atomic_overrides_merge_strategy, policy_rule_defaults_merge_strategy,
  policy_rule_overrides_merge_strategy, strategy_for,
}
use policy_machinery.Kuadrant.Valid.{
  IsValid, rules_of-AreRules, add_missing-AreRules, map_with_source-AreRules, keys-map_with_source,
}
use policy_machinery.Kuadrant.Rules.{AreRules, set_all-Settled}
use policy_machinery.Kuadrant.Merged.{locator-set_proper, proper-set_proper}

module _ {R : Type 0} where
  absent-contains :
      (limits : List (String × Limit R)) (k : String)
      → lookup limits k ≡ none
      → contains (keys limits) k ≡ false
  absent-contains limits k missing = elim (Bool-cases (contains (keys limits) k)) [
    | inl there ↦
        let (l, found) = (lookup-keys limits k).0 there in absurd (none-ne-some missing found)
    | inr e ↦ e
  ]

  set_rules-IsValid :
      (p set : RateLimitPolicy R) (rules : List (String × MergeableRule R))
      → p.locator == "" ≡ false
      → AreRules rules
      → distinct (keys rules) ≡ true
      → set_rules p rules ≡ some set
      → IsValid set
  unfolding set_rules
  set_rules-IsValid p set rules located are once was_set =
      let (after, done, settled) = set_all-Settled (proper p) rules are once in
      let same : set_proper p after ≡ set =
        some-injective (sym (ap (Option.map (set_proper p)) done) ∙ was_set) in
      subst IsValid same (record {
        located = subst (λ l. l == "" ≡ false) (sym (locator-set_proper p after)) located;
        once =
            subst (λ (s : RateLimitPolicySpecProper R). distinct (keys (limits_of s)) ≡ true)
              (sym (proper-set_proper p after)) settled.once;
        unreserved =
            subst
              (λ (s : RateLimitPolicySpecProper R).
                contains (keys (limits_of s)) rules_key_top_level_predicates ≡ false)
              (sym (proper-set_proper p after))
              (absent-contains (limits_of after) _ settled.unreserved);
      })

  merged-IsValid :
      (into a b merged : RateLimitPolicy R)
      → IsValid into
      → IsValid a
      → IsValid b
      → set_rules into
          (add_missing (rules_of a) b.locator (map_with_source a.locator (rules_of a)) (rules_of b))
        ≡ some merged
      → IsValid merged
  merged-IsValid into a b merged into_valid a_valid b_valid was_set =
      let kept = rules_of a in
      let (kept_are, kept_once) = rules_of-AreRules a a_valid in
      let (extra_are, extra_once) = rules_of-AreRules b b_valid in
      let (are, once) =
        add_missing-AreRules kept b.locator (map_with_source a.locator kept) (rules_of b)
          (map_with_source-AreRules a.locator kept a_valid.located kept_are) extra_are
          (subst (λ ks. distinct ks ≡ true) (sym (keys-map_with_source a.locator kept))
            kept_once) in
      set_rules-IsValid into merged _ into_valid.located are once was_set

  copied-IsValid :
      (p copied : RateLimitPolicy R)
      → IsValid p
      → copy_mergeable_policy p ≡ some copied
      → IsValid copied
  unfolding copy_mergeable_policy
  copied-IsValid p copied valid was_set =
      let (are, once) = rules_of-AreRules p valid in
      set_rules-IsValid p copied (map_with_source p.locator (rules_of p)) valid.located
        (map_with_source-AreRules p.locator (rules_of p) valid.located are)
        (subst (λ ks. distinct ks ≡ true) (sym (keys-map_with_source p.locator (rules_of p))) once)
        was_set

module _ {R : Type 0} (source target merged : RateLimitPolicy R) (source_valid : IsValid source)
    (target_valid : IsValid target) where
  atomic-IsValid : atomic_defaults_merge_strategy source target ≡ some merged → IsValid merged
  unfolding atomic_defaults_merge_strategy
  atomic-IsValid e = elim (Bool-cases (empty target)) [
    | inl none_limited ↦ copied-IsValid source merged source_valid (rw none_limited at e)
    | inr limited ↦ copied-IsValid target merged target_valid (rw limited at e)
  ]

  pub merge-IsValid : merge target source ≡ some merged → IsValid merged
  unfolding merge get_merge_strategy defaults_merge_strategy overrides_merge_strategy
      atomic_overrides_merge_strategy policy_rule_defaults_merge_strategy
      policy_rule_overrides_merge_strategy
  merge-IsValid e = chosen source.defaults source.overrides e
    where
      chosen :
          (defaults overrides : Option (MergeableRateLimitPolicySpec R))
          → strategy_for defaults overrides source target ≡ some merged
          → IsValid merged
      chosen (some spec) overrides e = elim (Bool-cases (spec.strategy == "merge")) [
        | inl rules ↦
            merged-IsValid target target source merged target_valid target_valid source_valid
              (rw rules at e)
        | inr atomic ↦ atomic-IsValid (rw atomic at e)
      ]
      chosen none (some spec) e = elim (Bool-cases (spec.strategy == "merge")) [
        | inl rules ↦
            merged-IsValid target source target merged target_valid source_valid target_valid
              (rw rules at e)
        | inr atomic ↦ copied-IsValid source merged source_valid (rw atomic at e)
      ]
      chosen none none e = atomic-IsValid e

module _ {R : Type 0} where
  pub mem_last :
      (policies : List (RateLimitPolicy R)) (l : RateLimitPolicy R)
      → last_of policies ≡ some l
      → Memᴰ l policies
  mem_last [] l e = absurd (none-ne-some refl e)
  mem_last (p ∷ policies) l e = elim (Option-cases (last_of policies)) [
    | inl only ↦ Memᴰ.head (sym (some-injective (rw only at e)))
    | inr (q, later) ↦ Memᴰ.tail (mem_last policies l (later ∙ rw later at e))
  ]
