-- ===== src/Kuadrant/Rules.antt =====
-- The rules of a rate limit policy, set and read back, of examples/kuadrant/apis/v1.
use mathlib.Core.Option
use policy_machinery.Prelude.{
  [], ◌∷◌, none, some, refl, put, arith, ◌∙◌, distinct-keys-put, lookup-put, eq_iff, sym, ap,
}
use policy_machinery.Prelude.{
  String, List, distinct, ◌==◌, keys, ◌≡◌, false, true, lookup, Option, is_empty, none, some,
}
use policy_machinery.Kuadrant.Policies.{limits_of, cleared_for}
use policy_machinery.Kuadrant.Policies.{
  put_limits, RateLimitPolicySpecProper, set_all, MergeableRule, Limit, limit_rule,
  rules_key_top_level_predicates, predicates_rule, new_mergeable_rule, WhenPredicates,
}
use policy_machinery.Controller.Entries.{lookup-none_of_distinct}

module _ {R : Type 0} where
  -- a rule of the type that its ID tells, with a source, and predicates where they are its rule
  abbrev pub IsRule : String → MergeableRule R → Type 0
  IsRule rule_id (limit_rule l) =
      (rule_id == rules_key_top_level_predicates ≡ false) × (l.source == "" ≡ false)
  IsRule rule_id (predicates_rule w) =
      (rule_id == rules_key_top_level_predicates ≡ true)
      × (is_empty w.predicates ≡ false)
      × (w.source == "" ≡ false)

  abbrev pub AreRules : List (String × MergeableRule R) → Type 0
  AreRules [] = Unit {0}
  AreRules ((rule_id, rule) ∷ rules) = IsRule rule_id rule × AreRules rules

  pub lookup-put_limits :
      (locator : String) (limits : List (String × Limit R))
      (rules : List (String × MergeableRule R)) (k : String)
      → distinct (keys limits) ≡ true
      → lookup (put_limits locator limits rules) k ≡ (elim (lookup limits k) [
        | some l ↦ some (new_mergeable_rule (limit_rule l) locator)
        | none ↦ lookup rules k
      ])
  unfolding put_limits
  lookup-put_limits locator [] rules k once = refl
  lookup-put_limits locator ((rule_id, l) ∷ limits) rules k once =
      lookup-put_limits locator limits
        (put rule_id (new_mergeable_rule (limit_rule l) locator) rules) k (ground (arith, once))
      ∙ ground (
        arith,
        once,
        lookup-put rule_id k (new_mergeable_rule (limit_rule l) locator) rules,
        eq_iff rule_id k,
        lookup-none_of_distinct k limits,
      )

  -- what the loop of SetRules makes of a spec
  pub record Settled (spec : RateLimitPolicySpecProper R) (rules : List (String × MergeableRule R))
      (after : RateLimitPolicySpecProper R) : Type 0 where
    pub limit :
        (k : String)
        → k == rules_key_top_level_predicates ≡ false
        → Option.map limit_rule (lookup (limits_of after) k) ≡ (elim (lookup rules k) [
          | some rule ↦ some rule
          | none ↦ Option.map limit_rule (lookup (limits_of spec) k)
        ])
    pub top_level :
        (elim (lookup rules rules_key_top_level_predicates) [
          | some rule ↦ some rule
          | none ↦ some (predicates_rule spec.when_predicates)
        ])
        ≡ some (predicates_rule after.when_predicates)
    pub once : distinct (keys (limits_of after)) ≡ true
    pub unreserved : lookup (limits_of after) rules_key_top_level_predicates ≡ none

  abbrev with_limits :
      RateLimitPolicySpecProper R → List (String × Limit R) → RateLimitPolicySpecProper R
  with_limits spec limits = record spec { limits = some limits }

  Settled-limit :
      (spec after : RateLimitPolicySpecProper R) (limits : List (String × Limit R))
      (rule_id : String) (l : Limit R) (rules : List (String × MergeableRule R))
      → rule_id == rules_key_top_level_predicates ≡ false
      → distinct (rule_id ∷ keys rules) ≡ true
      → Settled (with_limits spec (put rule_id l limits)) rules after
      → Settled (with_limits spec limits) ((rule_id, limit_rule l) ∷ rules) after
  Settled-limit spec after limits rule_id l rules differs once settled = record {
    limit = λ k other.
        settled.limit k other
        ∙ ground (
          arith,
          once,
          lookup-put rule_id k l limits,
          eq_iff rule_id k,
          lookup-none_of_distinct k rules,
        );
    top_level = rw differs settled.top_level;
    once = settled.once;
    unreserved = settled.unreserved;
  }

  Settled-predicates :
      (spec after : RateLimitPolicySpecProper R) (rule_id : String) (w : WhenPredicates)
      (rules : List (String × MergeableRule R))
      → rule_id == rules_key_top_level_predicates ≡ true
      → distinct (rule_id ∷ keys rules) ≡ true
      → Settled (record spec { when_predicates = w }) rules after
      → Settled spec ((rule_id, predicates_rule w) ∷ rules) after
  Settled-predicates spec after rule_id w rules same once settled = record {
    limit = λ k other.
        settled.limit k other
        ∙ ground (
          arith,
          same,
          other,
          eq_iff rule_id k,
          eq_iff rule_id rules_key_top_level_predicates,
          eq_iff k rules_key_top_level_predicates,
        );
    top_level = rw same (
        sym (
          ap
            (λ (r : Option (MergeableRule R)). elim r [
              | some rule ↦ some rule
              | none ↦ some (predicates_rule w)
            ])
            absent)
        ∙ settled.top_level);
    once = settled.once;
    unreserved = settled.unreserved;
  }
    where
      absent : lookup rules rules_key_top_level_predicates ≡ none
      absent =
          lookup-none_of_distinct rules_key_top_level_predicates rules
            (ground (arith, once, eq_iff rule_id rules_key_top_level_predicates, same))

  set_all-limit :
      (spec : RateLimitPolicySpecProper R) (limits : List (String × Limit R)) (rule_id : String)
      (l : Limit R) (rules : List (String × MergeableRule R))
      → rule_id == rules_key_top_level_predicates ≡ false
      → set_all (with_limits spec limits) ((rule_id, limit_rule l) ∷ rules)
        ≡ set_all (with_limits spec (put rule_id l limits)) rules
  unfolding set_all
  set_all-limit spec limits rule_id l rules differs = rw (set_all, differs) refl

  set_all-predicates :
      (spec : RateLimitPolicySpecProper R) (rule_id : String) (w : WhenPredicates)
      (rules : List (String × MergeableRule R))
      → rule_id == rules_key_top_level_predicates ≡ true
      → set_all spec ((rule_id, predicates_rule w) ∷ rules)
        ≡ set_all (record spec { when_predicates = w }) rules
  unfolding set_all
  set_all-predicates spec rule_id w rules same = rw (set_all, same) refl

  lookup-put_other :
      (rule_id : String) (l : Limit R) (limits : List (String × Limit R))
      → rule_id == rules_key_top_level_predicates ≡ false
      → lookup limits rules_key_top_level_predicates ≡ none
      → lookup (put rule_id l limits) rules_key_top_level_predicates ≡ none
  lookup-put_other rule_id l limits differs absent =
      lookup-put rule_id rules_key_top_level_predicates l limits ∙ rw differs absent

  made-Settled :
      (spec : RateLimitPolicySpecProper R) (limits : List (String × Limit R))
      (rules : List (String × MergeableRule R))
      → AreRules rules
      → distinct (keys rules) ≡ true
      → distinct (keys limits) ≡ true
      → lookup limits rules_key_top_level_predicates ≡ none
      → (after : RateLimitPolicySpecProper R) × (set_all (with_limits spec limits) rules
          ≡ some after)
        × Settled (with_limits spec limits) rules after
  made-Settled spec limits [] are once limits_once unreserved = (
    with_limits spec limits,
    unfold set_all in refl,
    record {
      limit = λ k differs. refl;
      top_level = refl;
      once = limits_once;
      unreserved = unreserved;
    },
  )
  made-Settled spec limits ((rule_id, limit_rule l) ∷ rules) ((differs, sourced), are) once
        limits_once unreserved =
      let (after, set, settled) =
        made-Settled spec (put rule_id l limits) rules are (ground (arith, once))
          (distinct-keys-put rule_id l limits limits_once)
          (lookup-put_other rule_id l limits differs unreserved) in
      (
        after,
        set_all-limit spec limits rule_id l rules differs ∙ set,
        Settled-limit spec after limits rule_id l rules differs once settled,
      )
  made-Settled spec limits ((rule_id, predicates_rule w) ∷ rules) ((same, _, sourced), are) once
        limits_once unreserved =
      let (after, set, settled) =
        made-Settled (record spec { when_predicates = w }) limits rules are (ground (arith, once))
          limits_once unreserved in
      (
        after,
        set_all-predicates (with_limits spec limits) rule_id w rules same ∙ set,
        Settled-predicates (with_limits spec limits) after rule_id w rules same once settled,
      )

  -- the loop of SetRules writes to a map that was made
  pub set_all-Settled :
      (spec : RateLimitPolicySpecProper R) (rules : List (String × MergeableRule R))
      → AreRules rules
      → distinct (keys rules) ≡ true
      → (after : RateLimitPolicySpecProper R) × (set_all (cleared_for rules spec) rules
          ≡ some after)
        × Settled (cleared_for rules spec) rules after
  set_all-Settled spec [] are once = (
    cleared_for [] spec,
    unfold set_all in refl,
    record { limit = λ k differs. refl; top_level = refl; once = refl; unreserved = refl },
  )
  set_all-Settled spec (rule ∷ rules) are once =
      made-Settled (cleared_for (rule ∷ rules) spec) [] (rule ∷ rules) are once refl refl
