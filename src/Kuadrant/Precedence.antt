-- ===== src/Kuadrant/Precedence.antt =====
-- Which policy of a path decides a rule of the effective policy, of EffectivePolicyForPath in
-- examples/kuadrant/apis/v1/merge_strategies.go.

use policy_machinery.Prelude.{
  [], ◌∷◌, none, some, refl, List, String, Option, Memᴰ, ◌≡◌, lookup, sym, ap, ◌∙◌, arith,
  Option-cases, inl, inr, none-ne-some, some-injective, subst,
}
use policy_machinery.Kuadrant.Policies.{RateLimitPolicy, MergeableRule, rules_of}
use policy_machinery.Kuadrant.Strategies.{
  strategy_for, policy_rule_defaults_merge_strategy, policy_rule_overrides_merge_strategy, merge,
  get_merge_strategy, defaults_merge_strategy, overrides_merge_strategy, reduce_right,
  effective_policy, last_of,
}
use policy_machinery.Kuadrant.Valid.{IsValid}
use policy_machinery.Kuadrant.Merges.{policy_rule_defaults_lem, policy_rule_overrides_lem}
use policy_machinery.Kuadrant.Effective.{merge-IsValid, mem_last}
use policy_machinery.Kuadrant.Decided.{
  MergesRules, as_defaults, as_overrides, stands, decided, unsourced, unsourced-first_of,
  unsourced-stands, stands-same,
}

module _ {R : Type 0} where
  defaults_to_merge :
      (strategy : String) (source target : RateLimitPolicy R)
      → strategy ≡ "merge"
      → defaults_merge_strategy strategy source target
        ≡ policy_rule_defaults_merge_strategy source target
  unfolding defaults_merge_strategy
  defaults_to_merge strategy source target e = ap (λ x. defaults_merge_strategy x source target) e

  overrides_to_merge :
      (strategy : String) (source target : RateLimitPolicy R)
      → strategy ≡ "merge"
      → overrides_merge_strategy strategy source target
        ≡ policy_rule_overrides_merge_strategy source target
  unfolding overrides_merge_strategy
  overrides_to_merge strategy source target e = ap (λ x. overrides_merge_strategy x source target) e

  merge_rules :
      (p target : RateLimitPolicy R)
      → IsValid p
      → IsValid target
      → MergesRules p
      → (merged : RateLimitPolicy R) × (merge target p ≡ some merged)
        × (merged.locator ≡ target.locator)
        × ((k : String)
            → unsourced (lookup (rules_of merged) k)
              ≡ stands p.defaults
                  (unsourced (lookup (rules_of p) k))
                  (unsourced (lookup (rules_of target) k)))
  unfolding merge get_merge_strategy
  merge_rules p target valid target_valid (as_defaults spec e strategy) =
      let (merged, done, located, rules) = policy_rule_defaults_lem p target valid target_valid in
      let own = λ (k : String). unsourced (lookup (rules_of p) k) in
      let specific = λ (k : String). unsourced (lookup (rules_of target) k) in
      (
        merged,
        ap (λ d. strategy_for d p.overrides p target) e
            ∙ defaults_to_merge spec.strategy p target strategy
            ∙ done,
        located,
        λ k.
            ap unsourced (rules k)
            ∙ unsourced-first_of target.locator _ _
            ∙ sym (ap (λ d. stands d (own k) (specific k)) e),
      )
  merge_rules p target valid target_valid (as_overrides spec absent e strategy) =
      let (merged, done, located, rules) = policy_rule_overrides_lem p target valid target_valid in
      let own = λ (k : String). unsourced (lookup (rules_of p) k) in
      let specific = λ (k : String). unsourced (lookup (rules_of target) k) in
      (
        merged,
        ap (λ d. strategy_for d p.overrides p target) absent
            ∙ ap (λ v. strategy_for none v p target) e
            ∙ overrides_to_merge spec.strategy p target strategy
            ∙ done,
        located,
        λ k.
            ap unsourced (rules k)
            ∙ unsourced-first_of p.locator _ _
            ∙ sym (ap (λ d. stands d (own k) (specific k)) absent),
      )

  -- what a path decides over the rule of a policy that is there before it
  abbrev decided_over :
      List (RateLimitPolicy R) → Option (MergeableRule R) → String → Option (MergeableRule R)
  decided_over [] base k = base
  decided_over (p ∷ policies) base k =
      stands p.defaults (lookup (rules_of p) k) (decided_over policies base k)

  reduced_rules :
      (policies : List (RateLimitPolicy R)) (effective : RateLimitPolicy R)
      → ((p : RateLimitPolicy R) → Memᴰ p policies → IsValid p × MergesRules p)
      → IsValid effective
      → (merged : RateLimitPolicy R) × (reduce_right policies effective ≡ some merged)
        × IsValid merged
        × (merged.locator ≡ effective.locator)
        × ((k : String)
            → unsourced (lookup (rules_of merged) k)
              ≡ unsourced (decided_over policies (lookup (rules_of effective) k) k))
  unfolding reduce_right
  reduced_rules [] effective valid is = (effective, refl, is, refl, λ k. refl)
  reduced_rules (p ∷ policies) effective valid is =
      let (rest, e, rest_valid, located, rules) =
        reduced_rules policies effective (λ q m. valid q (Memᴰ.tail m)) is in
      let (p_valid, merges) = valid p (Memᴰ.head refl) in
      let (merged, e', located', rules') = merge_rules p rest p_valid rest_valid merges in
      (
        merged,
        rw (reduce_right, e) e',
        merge-IsValid p rest merged p_valid rest_valid e',
        located' ∙ located,
        λ k.
            rules' k
            ∙ ap (stands p.defaults (unsourced (lookup (rules_of p) k))) (rules k)
            ∙ sym (unsourced-stands p.defaults _ _),
      )

  last_of-cons :
      (p q : RateLimitPolicy R) (policies : List (RateLimitPolicy R))
      → last_of (p ∷ q ∷ policies) ≡ last_of (q ∷ policies)
  last_of-cons p q policies = elim (Option-cases (last_of policies)) [
    | inl none_later ↦ rw none_later refl
    | inr (l, e) ↦ rw e refl
  ]

  -- the last policy, merged into itself, decides as it does alone
  decided_over-last :
      (policies : List (RateLimitPolicy R)) (l : RateLimitPolicy R) (k : String)
      → last_of policies ≡ some l
      → decided_over policies (lookup (rules_of l) k) k ≡ decided policies k
  decided_over-last [] l k e = absurd (none-ne-some refl e)
  decided_over-last (p ∷ []) l k e =
      subst
        (λ (q : RateLimitPolicy R).
          decided_over (p ∷ []) (lookup (rules_of q) k) k ≡ decided (p ∷ []) k)
        (some-injective e) (stands-same p.defaults (lookup (rules_of p) k))
  decided_over-last (p ∷ q ∷ policies) l k e =
      ap (stands p.defaults (lookup (rules_of p) k))
        (decided_over-last (q ∷ policies) l k (sym (last_of-cons p q policies) ∙ e))

  -- Of a path of one policy or more, from the least to the most specific, each with a locator, limits
  -- whose names are apart and not reserved, and the strategy "merge" for its defaults or its overrides,
  -- there is an effective policy: no merge on the way panics. It has the locator of the last policy, and
  -- each of its rules is, but for its source, the one that the path decides: where a policy of defaults
  -- and the policies after it both have a rule with the ID, that of the policies after it stands, and
  -- where a policy of overrides has one, its own.
  pub effective_policy_lem :
      (p : RateLimitPolicy R) (policies : List (RateLimitPolicy R))
      → ((q : RateLimitPolicy R) → Memᴰ q (p ∷ policies) → IsValid q × MergesRules q)
      → (l : RateLimitPolicy R) × (merged : RateLimitPolicy R) × (last_of (p ∷ policies) ≡ some l)
        × (effective_policy (p ∷ policies) ≡ some (some merged))
        × (merged.locator ≡ l.locator)
        × ((k : String)
            → unsourced (lookup (rules_of merged) k) ≡ unsourced (decided (p ∷ policies) k))
  unfolding effective_policy
  effective_policy_lem p policies valid = elim (Option-cases (last_of (p ∷ policies))) [
    | inl none_last ↦ absurd (there none_last)
    | inr (l, e) ↦
        let (merged, reduced, _, located, rules) =
          reduced_rules (p ∷ policies) l valid (valid l (mem_last (p ∷ policies) l e)).0 in
        (
          l,
          merged,
          e,
          rw (effective_policy, e, reduced) refl,
          located,
          λ k. rules k ∙ ap unsourced (decided_over-last (p ∷ policies) l k e),
        )
  ]
    where
      there : last_of (p ∷ policies) ≡ none → ⊥
      there e = ground arith
