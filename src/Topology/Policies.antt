-- ===== src/Topology/Policies.antt =====
-- Which policies a targetable of the topology has.
use mathlib.Core.List.Memᴰ
use policy_machinery.Types.{Universe}
use policy_machinery.Prelude.{
  List, String, ◌∷◌, ◌≡◌, map, [], ◌++◌, filter, sym, append-nil, ◌==◌, if◌then◌else◌, ◌∙◌,
  Bool-cases, ap, append_assoc, inl, eq_iff, inr, Memᴰ, ◌↔◌, Bool, ⊎_elim, mem-filter, subst,
}
use policy_machinery.Topology.Index.{index_policy, index_policies, policies_by_target_ref}

module _ (u : Universe) where
  open u use {
    Targetable, Policy, Reference, targetable_methods, reference_methods, policies, get_target_refs,
  }

  -- The policies with a target reference to the locator, in order, once for each such reference.
  pub targeting : List Policy → String → List Policy
  targeting [] a = []
  targeting (p ∷ ps) a =
      map (λ _. p) (filter (λ ref. reference_methods.get_locator ref == a) (get_target_refs p))
      ++ targeting ps a

  index_policy_lem :
      (p : Policy) (m : String → List Policy) (refs : List Reference) (a : String)
      → index_policy u p m refs a
        ≡ m a ++ map (λ _. p) (filter (λ ref. reference_methods.get_locator ref == a) refs)
  unfolding index_policy
  index_policy_lem p m [] a = sym (append-nil (m a))
  index_policy_lem p m (ref ∷ refs) a =
      let key = reference_methods.get_locator ref in
      let next = λ (k : String). if key == k then m key ++ p ∷ [] else m k in
      let tail = map (λ _. p) (filter (λ r. reference_methods.get_locator r == a) refs) in
      elim (Bool-cases (key == a)) [
        | inl same ↦
            index_policy_lem p next refs a
            ∙ rw (same, (eq_iff key a).0 same) (append_assoc (m a) (p ∷ []) tail)
        | inr differs ↦ index_policy_lem p next refs a ∙ rw differs
      ]

  index_policies_lem :
      (m : String → List Policy) (ps : List Policy) (a : String)
      → index_policies u m ps a ≡ m a ++ targeting ps a
  unfolding index_policies targeting
  index_policies_lem m [] a = sym (append-nil (m a))
  index_policies_lem m (p ∷ ps) a =
      index_policies_lem (index_policy u p m (get_target_refs p)) ps a
      ∙ ap (λ xs. xs ++ targeting ps a) (index_policy_lem p m (get_target_refs p) a)
      ∙ append_assoc (m a) _ (targeting ps a)

  -- The map holds under each locator the policies that target it.
  pub policies_by_target_ref_lem :
      (ps : List Policy) (a : String) → policies_by_target_ref u ps a ≡ targeting ps a
  unfolding policies_by_target_ref
  policies_by_target_ref_lem ps a = index_policies_lem (λ _. []) ps a

  -- the policies that target the locator, as members
  pub mem-targeting :
      (ps : List Policy) (a : String) (p : Policy)
      → Memᴰ p (targeting ps a) ↔ (
          Memᴰ p ps
          × ((ref : Reference) × Memᴰ ref (get_target_refs p)
              × (reference_methods.get_locator ref ≡ a)))
  unfolding targeting
  mem-targeting [] a p = (λ m. absurd (Memᴰ.not-nil m), λ (m, _). absurd (Memᴰ.not-nil m))
  mem-targeting (q ∷ ps) a p =
      let test : Reference → Bool = λ ref. reference_methods.get_locator ref == a in
      let (to, from) = mem-targeting ps a p in
      (
        λ m.
            ⊎_elim
              (λ first.
                let (ref, n, same) = Memᴰ.of_map (λ _. q) (filter test (get_target_refs q)) first in
                let (n', locator) = (mem-filter test (get_target_refs q) ref).0 n in
                (
                  Memᴰ.head (sym same),
                  (ref, subst (λ r. Memᴰ ref (get_target_refs r)) same n', (eq_iff _ a).0 locator),
                ))
              (λ later. let (n, targets) = to later in (Memᴰ.tail n, targets))
              (Memᴰ.append_cases (map (λ _. q) (filter test (get_target_refs q))) m),
        λ (m, (ref, n, locator)).
            ⊎_elim
              (λ here. Memᴰ.append_left (targeting ps a) (
                subst (λ r. Memᴰ r (map (λ _. q) (filter test (get_target_refs q)))) (sym here)
                  (Memᴰ.map (λ _. q)
                    ((mem-filter test (get_target_refs q) ref).1
                      (subst (λ r. Memᴰ ref (get_target_refs r)) here n, (eq_iff _ a).1 locator)))))
              (λ later.
                Memᴰ.append_right (map (λ _. q) (filter test (get_target_refs q)))
                  (from (later, (ref, n, locator))))
              (Memᴰ.cases_cons m),
      )
