-- ===== src/Kuadrant/Valid.antt =====
-- Rate limit policies with limits whose names are apart and not reserved, of examples/kuadrant/apis/v1.
use mathlib.Core.Option
use policy_machinery.Prelude.{
  [], ◌∷◌, none, some, refl, String, ◌==◌, List, ◌≡◌, distinct, keys, lookup, false, put, true,
  Bool-cases, contains, distinct-keys-put, ap, arith, if◌then◌else◌, eq_iff, is_empty, inl, inr,
  is_absent, ◌∙◌, lookup-put,
}
use policy_machinery.Kuadrant.Policies.{limits_of}
use policy_machinery.Kuadrant.Policies.{
  RateLimitPolicy, put_limits, rules_of, MergeableRule, Limit, rules_key_top_level_predicates,
  with_source, proper, new_mergeable_rule, limit_rule, get_source, predicates_rule, WhenPredicates,
}
use policy_machinery.Kuadrant.Rules.{AreRules, IsRule}
use policy_machinery.Kuadrant.Strategies.{map_with_source, add_missing}
use policy_machinery.Controller.Entries.{lookup-none_of_distinct}

predicates-IsRule :
    (R : Type 0) (locator : String) (w : WhenPredicates)
    → locator == "" ≡ false
    → is_empty w.predicates ≡ false
    → IsRule rules_key_top_level_predicates (new_mergeable_rule {R = R} (predicates_rule w) locator)
predicates-IsRule R locator w located there = elim (Bool-cases (w.source == "")) [
  | inl bare ↦ rw bare (refl, there, located)
  | inr sourced ↦ rw sourced (refl, there, sourced)
]

module _ {R : Type 0} where
  -- a policy with a locator, limits whose names are apart, and none with the name that is reserved
  pub record IsValid (p : RateLimitPolicy R) : Type 0 where
    pub located : p.locator == "" ≡ false
    pub once : distinct (keys (limits_of (proper p))) ≡ true
    pub unreserved : contains (keys (limits_of (proper p))) rules_key_top_level_predicates ≡ false

  AreRules-put :
      (rule_id : String) (rule : MergeableRule R) (rules : List (String × MergeableRule R))
      → IsRule rule_id rule
      → AreRules rules
      → AreRules (put rule_id rule rules)
  AreRules-put rule_id rule [] is are = (is, tt)
  AreRules-put rule_id rule ((j, r) ∷ rules) is (head, are) = elim (Bool-cases (j == rule_id)) [
    | inl same ↦ rw same (is, are)
    | inr differs ↦ rw differs (head, AreRules-put rule_id rule rules is are)
  ]

  limit-IsRule :
      (rule_id locator : String) (l : Limit R)
      → rule_id == rules_key_top_level_predicates ≡ false
      → locator == "" ≡ false
      → IsRule rule_id (new_mergeable_rule (limit_rule l) locator)
  limit-IsRule rule_id locator l differs located = elim (Bool-cases (l.source == "")) [
    | inl bare ↦ rw bare (differs, located)
    | inr sourced ↦ rw sourced (differs, sourced)
  ]

  put_limits-AreRules :
      (locator : String) (limits : List (String × Limit R))
      (rules : List (String × MergeableRule R))
      → locator == "" ≡ false
      → contains (keys limits) rules_key_top_level_predicates ≡ false
      → AreRules rules
      → AreRules (put_limits locator limits rules)
  unfolding put_limits
  put_limits-AreRules locator [] rules located unreserved are = are
  put_limits-AreRules locator ((rule_id, l) ∷ limits) rules located unreserved are =
      put_limits-AreRules locator limits _ located (ground arith) (
        AreRules-put rule_id _ rules
          (limit-IsRule rule_id locator l
            (ground (
              arith,
              eq_iff rule_id rules_key_top_level_predicates,
              eq_iff rules_key_top_level_predicates rule_id,
            ))
            located)
          are)

  put_limits-distinct :
      (locator : String) (limits : List (String × Limit R))
      (rules : List (String × MergeableRule R))
      → distinct (keys rules) ≡ true
      → distinct (keys (put_limits locator limits rules)) ≡ true
  unfolding put_limits
  put_limits-distinct locator [] rules once = once
  put_limits-distinct locator ((rule_id, l) ∷ limits) rules once =
      put_limits-distinct locator limits _ (distinct-keys-put rule_id _ rules once)

  pub rules_of-AreRules :
      (p : RateLimitPolicy R)
      → IsValid p
      → AreRules (rules_of p) × (distinct (keys (rules_of p)) ≡ true)
  unfolding rules_of
  rules_of-AreRules p valid = elim (Bool-cases (is_empty (proper p).when_predicates.predicates)) [
    | inl no_predicates ↦
        rw (rules_of, no_predicates)
          (
            put_limits-AreRules p.locator (limits_of (proper p)) [] valid.located valid.unreserved
                tt,
            put_limits-distinct p.locator (limits_of (proper p)) [] refl,
          )
    | inr predicates ↦
        rw (rules_of, predicates)
          (
            put_limits-AreRules p.locator (limits_of (proper p)) _ valid.located valid.unreserved (
              predicates-IsRule R p.locator (proper p).when_predicates valid.located predicates,
              tt,
            ),
            put_limits-distinct p.locator (limits_of (proper p)) _ refl,
          )
  ]

  with_source-IsRule :
      (rule_id locator : String) (rule : MergeableRule R)
      → locator == "" ≡ false
      → IsRule rule_id rule
      → IsRule rule_id (with_source locator rule)
  with_source-IsRule rule_id locator (limit_rule l) located (differs, _) = (differs, located)
  with_source-IsRule rule_id locator (predicates_rule w) located (same, there, _) =
      (same, there, located)

  pub map_with_source-AreRules :
      (locator : String) (rules : List (String × MergeableRule R))
      → locator == "" ≡ false
      → AreRules rules
      → AreRules (map_with_source locator rules)
  map_with_source-AreRules locator [] located are = tt
  map_with_source-AreRules locator ((rule_id, rule) ∷ rules) located (is, are) = (
    with_source-IsRule rule_id locator rule located is,
    map_with_source-AreRules locator rules located are,
  )

  pub keys-map_with_source :
      (locator : String) (rules : List (String × MergeableRule R))
      → keys (map_with_source locator rules) ≡ keys rules
  keys-map_with_source locator [] = refl
  keys-map_with_source locator ((rule_id, rule) ∷ rules) =
      ap (λ ks. rule_id ∷ ks) (keys-map_with_source locator rules)

  pub lookup-map_with_source :
      (locator : String) (rules : List (String × MergeableRule R)) (k : String)
      → lookup (map_with_source locator rules) k ≡ Option.map (with_source locator) (lookup rules k)
  lookup-map_with_source locator [] k = refl
  lookup-map_with_source locator ((rule_id, rule) ∷ rules) k =
      ground (arith, lookup-map_with_source locator rules k)

  -- a rule that has a source keeps it as its origin
  own_source :
      (rule_id locator : String) (rule : MergeableRule R)
      → IsRule rule_id rule
      → with_source (if get_source rule == "" then locator else get_source rule) rule ≡ rule
  own_source rule_id locator (limit_rule l) (_, sourced) = rw sourced refl
  own_source rule_id locator (predicates_rule w) (_, _, sourced) = rw sourced refl

  pub add_missing-AreRules :
      (kept : List (String × MergeableRule R)) (locator : String)
      (rules extra : List (String × MergeableRule R))
      → AreRules rules
      → AreRules extra
      → distinct (keys rules) ≡ true
      → AreRules (add_missing kept locator rules extra)
        × (distinct (keys (add_missing kept locator rules extra)) ≡ true)
  unfolding add_missing
  add_missing-AreRules kept locator rules [] are extra_are once = (are, once)
  add_missing-AreRules kept locator rules ((rule_id, rule) ∷ extra) are (is, extra_are) once =
      elim (Bool-cases (is_absent (lookup kept rule_id))) [
        | inl missing ↦
            rw (add_missing, missing)
              (add_missing-AreRules kept locator (put rule_id _ rules) extra
                (AreRules-put rule_id _ rules (rw (own_source rule_id locator rule is) is) are)
                extra_are (distinct-keys-put rule_id _ rules once))
        | inr there ↦
            rw (add_missing, there)
              (add_missing-AreRules kept locator rules extra are extra_are once)
      ]

  pub lookup-add_missing :
      (kept : List (String × MergeableRule R)) (locator : String)
      (rules extra : List (String × MergeableRule R)) (k : String)
      → AreRules extra
      → distinct (keys extra) ≡ true
      → lookup (add_missing kept locator rules extra) k ≡ (
          if is_absent (lookup kept k)
          then (elim (lookup extra k) [ some rule ↦ some rule | none ↦ lookup rules k ])
          else lookup rules k)
  unfolding add_missing
  lookup-add_missing kept locator rules [] k are once = ground arith
  lookup-add_missing kept locator rules ((rule_id, rule) ∷ extra) k (is, are) once =
      let own = own_source rule_id locator rule is in
      elim (Bool-cases (is_absent (lookup kept rule_id))) [
        | inl missing ↦
            rw (add_missing, missing, own)
              (lookup-add_missing kept locator (put rule_id rule rules) extra k are
                  (ground (arith, once))
                ∙ ground (
                  arith,
                  once,
                  missing,
                  lookup-put rule_id k rule rules,
                  eq_iff rule_id k,
                  lookup-none_of_distinct k extra,
                ))
        | inr there ↦
            rw (add_missing, there)
              (lookup-add_missing kept locator rules extra k are (ground (arith, once))
                ∙ ground (arith, once, there, eq_iff rule_id k, lookup-none_of_distinct k extra))
      ]
