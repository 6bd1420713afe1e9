-- ===== src/Kuadrant/Policies.antt =====
-- examples/kuadrant/apis/v1/ratelimitpolicy_types.go, and the predicates of common_types.go.
use mathlib.Core.Option
use policy_machinery.Prelude.{
  List, String, Option, Bool, if◌then◌else◌, is_empty, some, [], ◌==◌, ◌∷◌, put, none, get_or,
}

-- MergeableWhenPredicates
pub record WhenPredicates : Type 0 where
  pub predicates : List String
  pub source : String

module _ (R : Type 0) where
  -- `R` is the type of rates
  pub record Limit : Type 0 where
    pub when : List String
    pub counters : List String
    pub rates : List R
    pub source : String

  pub record RateLimitPolicySpecProper : Type 0 where
    pub when_predicates : WhenPredicates
    -- a nil map is `none`
    pub limits : Option (List (String × Limit))

  pub record MergeableRateLimitPolicySpec : Type 0 where
    pub strategy : String
    pub proper : RateLimitPolicySpecProper

  -- the spec without its target reference, and what GetLocator returns
  pub record RateLimitPolicy : Type 0 where
    pub locator : String
    pub defaults : Option MergeableRateLimitPolicySpec
    pub overrides : Option MergeableRateLimitPolicySpec
    pub bare : RateLimitPolicySpecProper

  -- MergeableRule: the two types that implement it
  pub data MergeableRule : Type 0 where
    limit_rule : Limit → MergeableRule
    predicates_rule : WhenPredicates → MergeableRule

abbrev pub rules_key_top_level_predicates : String
rules_key_top_level_predicates = "###_TOP_LEVEL_PREDICATES_###"

module _ {R : Type 0} where
  -- `GetSource`
  abbrev pub get_source : MergeableRule R → String
  get_source (limit_rule l) = l.source
  get_source (predicates_rule w) = w.source

  -- `WithSource`, on the copy of the rule that its caller holds
  abbrev pub with_source : String → MergeableRule R → MergeableRule R
  with_source source (limit_rule l) = limit_rule (record l { source = source })
  with_source source (predicates_rule w) = predicates_rule (record w { source = source })

  -- `NewMergeableRule`
  abbrev pub new_mergeable_rule : MergeableRule R → String → MergeableRule R
  new_mergeable_rule rule default_source =
      if get_source rule == "" then with_source default_source rule else rule

  -- `RateLimitPolicySpec.Proper`
  abbrev pub proper_of :
      Option (MergeableRateLimitPolicySpec R)
      → Option (MergeableRateLimitPolicySpec R)
      → RateLimitPolicySpecProper R
      → RateLimitPolicySpecProper R
  proper_of (some d) overrides bare = d.proper
  proper_of none (some v) bare = v.proper
  proper_of none none bare = bare

  unfoldable pub proper : RateLimitPolicy R → RateLimitPolicySpecProper R
  proper p = proper_of p.defaults p.overrides p.bare

  -- a write through the pointer that `Proper` returns
  abbrev pub set_proper_of :
      RateLimitPolicy R
      → Option (MergeableRateLimitPolicySpec R)
      → Option (MergeableRateLimitPolicySpec R)
      → RateLimitPolicySpecProper R
      → RateLimitPolicy R
  set_proper_of p (some d) overrides spec = record p {
    defaults = some (record d { proper = spec });
  }
  set_proper_of p none (some v) spec = record p { overrides = some (record v { proper = spec }) }
  set_proper_of p none none spec = record p { bare = spec }

  unfoldable pub set_proper : RateLimitPolicy R → RateLimitPolicySpecProper R → RateLimitPolicy R
  set_proper p spec = set_proper_of p p.defaults p.overrides spec

  -- the limits that are read, of a map that may be nil
  abbrev pub limits_of : RateLimitPolicySpecProper R → List (String × Limit R)
  limits_of spec = get_or spec.limits []

  -- `RateLimitPolicy.Empty`
  unfoldable pub empty : RateLimitPolicy R → Bool
  unfolding proper
  empty p = is_empty (limits_of (proper p))

  -- the loop of `Rules` over the limits
  unfoldable pub put_limits :
      String
      → List (String × Limit R)
      → List (String × MergeableRule R)
      → List (String × MergeableRule R)
  put_limits locator [] rules = rules
  put_limits locator ((rule_id, l) ∷ limits) rules =
      put_limits locator limits (put rule_id (new_mergeable_rule (limit_rule l) locator) rules)

  -- `RateLimitPolicy.Rules`
  unfoldable pub rules_of : RateLimitPolicy R → List (String × MergeableRule R)
  unfolding put_limits proper
  rules_of p =
      let spec = proper p in
      let first : List (String × MergeableRule R) =
        if is_empty spec.when_predicates.predicates
        then []
        else (
          rules_key_top_level_predicates,
          new_mergeable_rule (predicates_rule spec.when_predicates) p.locator,
        )
          ∷ [] in
      put_limits p.locator (limits_of spec) first

  -- one round of `SetRules`: a rule of the wrong type fails its type assertion, and a write to a nil
  -- map panics
  abbrev pub set_rule :
      RateLimitPolicySpecProper R → String → MergeableRule R → Option (RateLimitPolicySpecProper R)
  set_rule spec rule_id (predicates_rule w) =
      if rule_id == rules_key_top_level_predicates
      then some (record spec { when_predicates = w })
      else none
  set_rule spec rule_id (limit_rule l) =
      if rule_id == rules_key_top_level_predicates then none else elim spec.limits [
        | none ↦ none
        | some limits ↦ some (record spec { limits = some (put rule_id l limits) })
      ]

  -- the loop of `SetRules`
  unfoldable pub set_all :
      RateLimitPolicySpecProper R
      → List (String × MergeableRule R)
      → Option (RateLimitPolicySpecProper R)
  set_all spec [] = some spec
  set_all spec ((rule_id, rule) ∷ rules) = elim (set_rule spec rule_id rule) [
    | none ↦ none
    | some next ↦ set_all next rules
  ]

  -- the spec that the loop of `SetRules` starts from: a map is made where there are rules
  abbrev pub cleared_for :
      List (String × MergeableRule R) → RateLimitPolicySpecProper R → RateLimitPolicySpecProper R
  cleared_for rules spec = record spec {
    limits = if is_empty rules then none else some [];
    when_predicates = record { predicates = []; source = spec.when_predicates.source };
  }

  -- `RateLimitPolicy.SetRules`
  unfoldable pub set_rules :
      RateLimitPolicy R → List (String × MergeableRule R) → Option (RateLimitPolicy R)
  unfolding set_all proper set_proper
  set_rules p rules = Option.map (set_proper p) (set_all (cleared_for rules (proper p)) rules)
