-- ===== src/KuadrantExamples.antt =====
-- The theorems on the merge of rate limit policies at two small policies.
use mathlib.Core.List.Memᴰ
use mathlib.Core.Option
use policy_machinery.Kuadrant.{
  limit_rule, RateLimitPolicySpecProper, RateLimitPolicy, proper, empty, Limit,
  policy_rule_defaults_merge_strategy, policy_rule_overrides_merge_strategy,
  atomic_defaults_merge_strategy, merge, set_rules, rules_of, with_source, effective_policy,
}
use policy_machinery.Prelude.{
  [], ◌∷◌, none, some, refl, ◌≡◌, ℕ, String, lookup, Memᴰ, ⊎_elim, subst, sym, mem_singleton,
}
use policy_machinery.Kuadrant.Valid.{IsValid}
use policy_machinery.Kuadrant.Merges.{
  merge_returns, policy_rule_defaults_lem, policy_rule_overrides_lem, atomic_defaults_lem,
}
use policy_machinery.Kuadrant.Merged.{rules_of-set_rules}
use policy_machinery.Kuadrant.Decided.{MergesRules, as_defaults, as_overrides, unsourced, decided}
use policy_machinery.Kuadrant.Precedence.{effective_policy_lem}
use policy_machinery.Kuadrant.{last_of}
use policy_machinery.Prelude.{List}

-- rates are numbers here
abbrev limit_of : ℕ → Limit ℕ
limit_of n = record { when = []; counters = []; rates = n ∷ []; source = "" }

abbrev no_spec : RateLimitPolicySpecProper ℕ
no_spec = record { when_predicates = record { predicates = []; source = "" }; limits = none }

-- a policy on a gateway, whose rules are defaults to merge
abbrev of_gateway : RateLimitPolicy ℕ
of_gateway = record {
  locator = "gateway-policy";
  defaults = some (record {
    strategy = "merge";
    proper = record {
      when_predicates = record { predicates = "true" ∷ []; source = "" };
      limits = some (("low", limit_of 1) ∷ ("high", limit_of 9) ∷ []);
    };
  });
  overrides = none;
  bare = no_spec;
}

-- a policy on a route, with a bare set of limits
abbrev of_route : RateLimitPolicy ℕ
of_route = record {
  locator = "route-policy";
  defaults = none;
  overrides = none;
  bare = record {
    when_predicates = record { predicates = []; source = "" };
    limits = some (("low", limit_of 2) ∷ []);
  };
}

of_gateway-IsValid : IsValid of_gateway
unfolding proper
of_gateway-IsValid = record { located = refl; once = refl; unreserved = refl }

of_route-IsValid : IsValid of_route
unfolding proper
of_route-IsValid = record { located = refl; once = refl; unreserved = refl }

policy_rule_defaults_lem_example :
    (merged : RateLimitPolicy ℕ) × (policy_rule_defaults_merge_strategy of_gateway of_route
      ≡ some merged)
    × (merged.locator ≡ of_route.locator)
    × ((k : String)
        → lookup (rules_of merged) k ≡ (elim (lookup (rules_of of_route) k) [
          | some rule ↦ some (with_source of_route.locator rule)
          | none ↦ lookup (rules_of of_gateway) k
        ]))
policy_rule_defaults_lem_example =
    policy_rule_defaults_lem of_gateway of_route of_gateway-IsValid of_route-IsValid

policy_rule_overrides_lem_example :
    (merged : RateLimitPolicy ℕ) × (policy_rule_overrides_merge_strategy of_gateway of_route
      ≡ some merged)
    × (merged.locator ≡ of_route.locator)
    × ((k : String)
        → lookup (rules_of merged) k ≡ (elim (lookup (rules_of of_gateway) k) [
          | some rule ↦ some (with_source of_gateway.locator rule)
          | none ↦ lookup (rules_of of_route) k
        ]))
policy_rule_overrides_lem_example =
    policy_rule_overrides_lem of_gateway of_route of_gateway-IsValid of_route-IsValid

atomic_defaults_lem_example :
    (merged : RateLimitPolicy ℕ) × (atomic_defaults_merge_strategy of_gateway of_route
      ≡ some merged)
    × (merged.locator ≡ "route-policy")
    × ((k : String)
        → lookup (rules_of merged) k
          ≡ Option.map (with_source "route-policy") (lookup (rules_of of_route) k))
unfolding empty proper
atomic_defaults_lem_example =
    atomic_defaults_lem of_gateway of_route of_gateway-IsValid of_route-IsValid

merge_returns_example : (merged : RateLimitPolicy ℕ) × (merge of_route of_gateway ≡ some merged)
merge_returns_example = merge_returns of_gateway of_route of_gateway-IsValid of_route-IsValid

rules_of-set_rules_example :
    (set : RateLimitPolicy ℕ) × (set_rules of_route
        (("low", limit_rule (record (limit_of 3) { source = "p" })) ∷ [])
      ≡ some set)
    × (set.locator ≡ of_route.locator)
    × ((k : String)
        → lookup (rules_of set) k
          ≡ lookup (("low", limit_rule (record (limit_of 3) { source = "p" })) ∷ []) k)
rules_of-set_rules_example =
    rules_of-set_rules of_route (("low", limit_rule (record (limit_of 3) { source = "p" })) ∷ [])
      ((refl, refl), tt) refl

-- a policy on a route, whose rules are defaults to merge
abbrev defaults_of_route : RateLimitPolicy ℕ
defaults_of_route = record of_route {
  defaults = some (record { strategy = "merge"; proper = of_route.bare });
  bare = no_spec;
}

-- a policy on a listener, whose rules are overrides to merge
abbrev overrides_of_listener : RateLimitPolicy ℕ
overrides_of_listener = record {
  locator = "listener-policy";
  defaults = none;
  overrides = some (record {
    strategy = "merge";
    proper = record {
      when_predicates = record { predicates = []; source = "" };
      limits = some (("high", limit_of 7) ∷ []);
    };
  });
  bare = no_spec;
}

abbrev path : List (RateLimitPolicy ℕ)
path = of_gateway ∷ overrides_of_listener ∷ defaults_of_route ∷ []

path-MergesRules : (q : RateLimitPolicy ℕ) → Memᴰ q path → IsValid q × MergesRules q
unfolding proper
path-MergesRules q m =
    ⊎_elim
      (λ e.
        subst (λ p. IsValid p × MergesRules p) (sym e)
          (of_gateway-IsValid, as_defaults _ refl refl))
      (λ later.
        ⊎_elim
          (λ e.
            subst (λ p. IsValid p × MergesRules p) (sym e)
              (
                record { located = refl; once = refl; unreserved = refl },
                as_overrides _ refl refl refl,
              ))
          (λ last.
            subst (λ p. IsValid p × MergesRules p) (sym (mem_singleton last))
              (record { located = refl; once = refl; unreserved = refl }, as_defaults _ refl refl))
          (Memᴰ.cases_cons later))
      (Memᴰ.cases_cons m)

effective_policy_lem_example :
    (l : RateLimitPolicy ℕ) × (merged : RateLimitPolicy ℕ) × (last_of path ≡ some l)
    × (effective_policy path ≡ some (some merged))
    × (merged.locator ≡ l.locator)
    × ((k : String) → unsourced (lookup (rules_of merged) k) ≡ unsourced (decided path k))
effective_policy_lem_example =
    effective_policy_lem of_gateway (overrides_of_listener ∷ defaults_of_route ∷ [])
      path-MergesRules
