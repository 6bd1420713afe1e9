-- ===== src/Kuadrant/Merged.antt =====
-- The rules of merged rate limit policies, of examples/kuadrant/apis/v1.
use mathlib.Core.Option
use policy_machinery.Prelude.{
  [], ◌∷◌, none, some, refl, List, String, distinct, lookup, ◌≡◌, ◌==◌, keys, false, true,
  none-ne-some, Bool-cases, if◌then◌else◌, inl, subst, is_empty, eq_iff, some-injective, inr, ◌∙◌,
  arith, ap, sym, Option-cases,
}
use policy_machinery.Kuadrant.Policies.{limits_of, cleared_for}
use policy_machinery.Kuadrant.Policies.{
  proper, MergeableRule, rules_of, set_proper, RateLimitPolicy, RateLimitPolicySpecProper,
  get_source, new_mergeable_rule, limit_rule, rules_key_top_level_predicates, predicates_rule,
  set_rules,
}
use policy_machinery.Kuadrant.Rules.{AreRules, IsRule, lookup-put_limits, Settled, set_all-Settled}

module _ {R : Type 0} where
  AreRules-lookup :
      (rules : List (String × MergeableRule R)) (k : String) (rule : MergeableRule R)
      → AreRules rules
      → lookup rules k ≡ some rule
      → IsRule k rule
  AreRules-lookup [] k rule are found = absurd (none-ne-some refl found)
  AreRules-lookup ((j, r) ∷ rules) k rule (is, are) found = elim (Bool-cases (j == k)) [
    | inl same ↦
        subst (λ i. IsRule i rule) ((eq_iff j k).0 same)
          (subst (IsRule j) (some-injective (rw same at found)) is)
    | inr differs ↦ AreRules-lookup rules k rule are (rw differs at found)
  ]

  pub proper-set_proper :
      (p : RateLimitPolicy R) (spec : RateLimitPolicySpecProper R)
      → proper (set_proper p spec) ≡ spec
  unfolding proper set_proper
  proper-set_proper p spec = ground arith

  pub locator-set_proper :
      (p : RateLimitPolicy R) (spec : RateLimitPolicySpecProper R)
      → (set_proper p spec).locator ≡ p.locator
  unfolding set_proper
  locator-set_proper p spec = ground arith

  sourced_rule :
      (rule : MergeableRule R) (locator : String)
      → get_source rule == "" ≡ false
      → new_mergeable_rule rule locator ≡ rule
  sourced_rule rule locator sourced = rw sourced refl

  -- the rules of a spec, by ID
  lookup-rules_of :
      (p : RateLimitPolicy R) (k : String)
      → distinct (keys (limits_of (proper p))) ≡ true
      → lookup (rules_of p) k ≡ (elim (lookup (limits_of (proper p)) k) [
        | some l ↦ some (new_mergeable_rule (limit_rule l) p.locator)
        | none ↦
            if is_empty (proper p).when_predicates.predicates
            then none
            else (if rules_key_top_level_predicates == k
                then some
                    (new_mergeable_rule (predicates_rule (proper p).when_predicates) p.locator)
                else none)
      ])
  unfolding rules_of
  lookup-rules_of p k once =
      lookup-put_limits p.locator (limits_of (proper p)) _ k once ∙ ground arith

  read_rule :
      (p : RateLimitPolicy R) (cleared : RateLimitPolicySpecProper R)
      (rules : List (String × MergeableRule R)) (k : String) (rule : MergeableRule R)
      → Settled cleared rules (proper p)
      → lookup rules k ≡ some rule
      → IsRule k rule
      → lookup (rules_of p) k ≡ some rule
  read_rule p cleared rules k (limit_rule l) settled found (differs, sourced) =
      let limit = settled.limit k differs in
      lookup-rules_of p k settled.once ∙ ground (arith, found, limit, sourced)
  read_rule p cleared rules k (predicates_rule w) settled found (same, there, sourced) =
      let named = (eq_iff k rules_key_top_level_predicates).0 same in
      let found' : lookup rules rules_key_top_level_predicates ≡ some (predicates_rule w) =
        subst (λ j. lookup rules j ≡ some (predicates_rule w)) named found in
      let absent = settled.unreserved in
      let top_level = settled.top_level in
      subst (λ j. lookup (rules_of p) j ≡ some (predicates_rule w)) (sym named)
        (lookup-rules_of p rules_key_top_level_predicates settled.once
          ∙ ground (arith, found', top_level, absent, there, sourced))

  -- an ID that is not among the rules that SetRules has settled
  read_absent :
      (p : RateLimitPolicy R) (cleared : RateLimitPolicySpecProper R)
      (rules : List (String × MergeableRule R)) (k : String)
      → Settled cleared rules (proper p)
      → limits_of cleared ≡ []
      → cleared.when_predicates.predicates ≡ []
      → lookup rules k ≡ none
      → lookup (rules_of p) k ≡ none
  read_absent p cleared rules k settled no_limits no_predicates missing =
      elim (Bool-cases (k == rules_key_top_level_predicates)) [
        | inl same ↦
            let named = (eq_iff k rules_key_top_level_predicates).0 same in
            let missing' : lookup rules rules_key_top_level_predicates ≡ none =
              subst (λ j. lookup rules j ≡ none) named missing in
            let absent = settled.unreserved in
            let top_level = settled.top_level in
            subst (λ j. lookup (rules_of p) j ≡ none) (sym named)
              (lookup-rules_of p rules_key_top_level_predicates settled.once
                ∙ ground (arith, missing', top_level, absent, no_predicates))
        | inr differs ↦
            let limit = settled.limit k differs in
            lookup-rules_of p k settled.once
            ∙ ground (
              arith,
              missing,
              limit,
              no_limits,
              differs,
              eq_iff k rules_key_top_level_predicates,
              eq_iff rules_key_top_level_predicates k,
            )
      ]

  -- the rules of a spec that SetRules has settled
  read_rules :
      (p : RateLimitPolicy R) (cleared : RateLimitPolicySpecProper R)
      (rules : List (String × MergeableRule R)) (k : String)
      → Settled cleared rules (proper p)
      → limits_of cleared ≡ []
      → cleared.when_predicates.predicates ≡ []
      → AreRules rules
      → lookup (rules_of p) k ≡ lookup rules k
  read_rules p cleared rules k settled no_limits no_predicates are =
      elim (Option-cases (lookup rules k)) [
        | inl missing ↦
            read_absent p cleared rules k settled no_limits no_predicates missing ∙ sym missing
        | inr (rule, found) ↦
            read_rule p cleared rules k rule settled found (AreRules-lookup rules k rule are found)
            ∙ sym found
      ]

  pub limits_of-cleared_for :
      (rules : List (String × MergeableRule R)) (spec : RateLimitPolicySpecProper R)
      → limits_of (cleared_for rules spec) ≡ []
  limits_of-cleared_for [] spec = refl
  limits_of-cleared_for (rule ∷ rules) spec = refl

  -- Rules that each have a source and the type that their ID tells, with IDs apart, are read back as they
  -- are set.
  pub rules_of-set_rules :
      (p : RateLimitPolicy R) (rules : List (String × MergeableRule R))
      → AreRules rules
      → distinct (keys rules) ≡ true
      → (set : RateLimitPolicy R) × (set_rules p rules ≡ some set)
        × (set.locator ≡ p.locator)
        × ((k : String) → lookup (rules_of set) k ≡ lookup rules k)
  unfolding set_rules
  rules_of-set_rules p rules are once =
      let (after, set, settled) = set_all-Settled (proper p) rules are once in
      (
        set_proper p after,
        ap (Option.map (set_proper p)) set,
        locator-set_proper p after,
        λ k.
            read_rules (set_proper p after) (cleared_for rules (proper p)) rules k
              (subst (Settled (cleared_for rules (proper p)) rules)
                (sym (proper-set_proper p after)) settled)
              (limits_of-cleared_for rules (proper p)) refl are,
      )
