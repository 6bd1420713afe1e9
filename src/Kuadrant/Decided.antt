-- ===== src/Kuadrant/Decided.antt =====
-- EffectivePolicyForPath in examples/kuadrant/apis/v1/merge_strategies.go, told apart from its merges: for
-- each rule the policy of the path that it is to be taken from.
use mathlib.Core.Option
use policy_machinery.Prelude.{[], ◌∷◌, none, some, refl, List, String, Option, ◌≡◌, lookup}
use policy_machinery.Kuadrant.Policies.{
  RateLimitPolicy, MergeableRule, MergeableRateLimitPolicySpec, rules_of, with_source, limit_rule,
  predicates_rule,
}

abbrev pub first_of : {A : Type 0} → Option A → Option A → Option A
first_of none later = later
first_of (some a) later = some a

module _ {R : Type 0} where
  -- a policy with the strategy "merge", for defaults or for overrides
  pub data MergesRules (p : RateLimitPolicy R) : Type 0 where
    as_defaults :
        (spec : MergeableRateLimitPolicySpec R)
        → p.defaults ≡ some spec
        → spec.strategy ≡ "merge"
        → MergesRules p
    as_overrides :
        (spec : MergeableRateLimitPolicySpec R)
        → p.defaults ≡ none
        → p.overrides ≡ some spec
        → spec.strategy ≡ "merge"
        → MergesRules p

  -- of a rule of a policy and the rule of the more specific policies, the one that stands
  abbrev pub stands :
      Option (MergeableRateLimitPolicySpec R)
      → Option (MergeableRule R)
      → Option (MergeableRule R)
      → Option (MergeableRule R)
  stands (some spec) own specific = first_of specific own
  stands none own specific = first_of own specific

  -- The rule that a path decides, from the least to the most specific policy: a policy of defaults gives
  -- way to the more specific ones, and a policy of overrides does not.
  abbrev pub decided : List (RateLimitPolicy R) → String → Option (MergeableRule R)
  decided [] k = none
  decided (p ∷ policies) k = stands p.defaults (lookup (rules_of p) k) (decided policies k)

  -- the rule with its source put aside
  abbrev pub unsourced : Option (MergeableRule R) → Option (MergeableRule R)
  unsourced = Option.map (with_source "")

  pub unsourced-first_of :
      (locator : String) (a b : Option (MergeableRule R))
      → unsourced (elim a [ some rule ↦ some (with_source locator rule) | none ↦ b ])
        ≡ first_of (unsourced a) (unsourced b)
  unsourced-first_of locator none b = refl
  unsourced-first_of locator (some (limit_rule l)) b = refl
  unsourced-first_of locator (some (predicates_rule w)) b = refl

  pub unsourced-stands :
      (spec : Option (MergeableRateLimitPolicySpec R)) (own specific : Option (MergeableRule R))
      → unsourced (stands spec own specific) ≡ stands spec (unsourced own) (unsourced specific)
  unsourced-stands none none specific = refl
  unsourced-stands none (some r) specific = refl
  unsourced-stands (some spec) own none = refl
  unsourced-stands (some spec) own (some r) = refl

  pub stands-same :
      (spec : Option (MergeableRateLimitPolicySpec R)) (own : Option (MergeableRule R))
      → stands spec own own ≡ stands spec own none
  stands-same none none = refl
  stands-same none (some r) = refl
  stands-same (some spec) none = refl
  stands-same (some spec) (some r) = refl
