-- ===== src/Controller/Stores.antt =====
-- controller/cache.go: what equality, copies and filters of stores mean.
use mathlib.Core.List.Memᴰ
use policy_machinery.Prelude.{
  List, Bool, String, distinct, Memᴰ, ◌≡◌, lookup, keys, values, true, some, ◌↔◌, ◌∷◌, ⊎_elim,
  arith, [], refl, Option-cases, contains, length, same_number_iff, ap₂, ap, lookup-keys, none,
  mem_of_contains, inl, true-ne-false, false, ◌∙◌, mem-filter, none-ne-some, sym, Bool-cases, inr,
  some-injective, ◌==◌, length-le_of_distinct, subst, length-keys, eq_iff, contains_of_mem, ◌&&◌,
}
use policy_machinery.Controller.Methods.{Objects, ObjectsLaws}
use policy_machinery.Controller.Cache.{
  Store, filter_by_group_kind, every_by, store_equal, entry_equal, store_deep_copy, store_filter,
}
use policy_machinery.Types.{GroupKind, same_kind_iff, same_kind}
use policy_machinery.Controller.Entries.{lookup_iff_mem}

every_by_iff :
    {A : Type 0} (xs : List A) (p : A → Bool)
    → (every_by xs p ≡ true) ↔ ((x : A) → Memᴰ x xs → p x ≡ true)
every_by_iff [] p = (λ h x m. absurd (Memᴰ.not-nil m), λ h. refl)
every_by_iff (y ∷ xs) p =
    let (to, from) = every_by_iff xs p in
    (
      λ h x m.
          ⊎_elim (λ e. rw e (ground arith)) (λ later. to (ground arith) x later)
            (Memᴰ.cases_cons m),
      λ h.
          let first = h y (Memᴰ.head refl) in
          let rest = from (λ x m. h x (Memᴰ.tail m)) in ground arith,
    )

module _ {o : Objects} (laws : ObjectsLaws o) where
  entry_equal_iff :
      (s other : Store o) (k : String) (x : o.Object)
      → lookup s k ≡ some x
      → (entry_equal o s other k ≡ true) ↔ (lookup other k ≡ some x)
  entry_equal_iff s other k x there = elim (Option-cases (lookup other k)) [
    | inl gone ↦
        rw (entry_equal, gone)
          (λ h. absurd (true-ne-false h refl), λ h. absurd (none-ne-some refl h))
    | inr (y, found) ↦
        rw (entry_equal, found, there)
          (
            λ h. ap some (sym ((laws.deep_equal_iff x y).0 h)),
            λ e. (laws.deep_equal_iff x y).1 (sym (some-injective e)),
          )
  ]

  keys_within :
      (s other : Store o)
      → ((k : String) (x : o.Object) → lookup s k ≡ some x → lookup other k ≡ some x)
      → (k : String) → contains (keys s) k ≡ true
      → contains (keys other) k ≡ true
  keys_within s other within k h =
      let (x, e) = (lookup-keys s k).0 h in (lookup-keys other k).1 (x, within k x e)

  -- a store with the entries of another and as many has no others
  nothing_else :
      (s other : Store o) (k : String)
      → distinct (keys s) ≡ true
      → length s ≡ length other
      → ((j : String) (x : o.Object) → lookup s j ≡ some x → lookup other j ≡ some x)
      → lookup s k ≡ none
      → lookup other k ≡ none
  nothing_else s other k once as_many within gone = elim (Option-cases (lookup other k)) [
    | inl e ↦ e
    | inr (y, e) ↦
        let longer = length-le_of_distinct (k ∷ keys s) (keys other) fresh (inside y e) in
        absurd (omega (arith, length-keys s, length-keys other))
  ]
    where
      absent : (b : Bool) → contains (keys s) k ≡ b → b ≡ false
      absent false h = refl
      absent true h = let (x, e) = (lookup-keys s k).0 h in absurd (none-ne-some gone e)

      fresh : distinct (k ∷ keys s) ≡ true
      fresh = ground (arith, absent (contains (keys s) k) refl, once)

      inside :
          (y : o.Object)
          → lookup other k ≡ some y
          → (j : String) → contains (k ∷ keys s) j ≡ true
          → contains (keys other) j ≡ true
      inside y e j h = elim (Bool-cases (k == j)) [
        | inl same ↦
            (lookup-keys other j).1
              (y, subst (λ i. lookup other i ≡ some y) ((eq_iff k j).0 same) e)
        | inr differs ↦ keys_within s other within j (ground arith)
      ]

  -- Two stores in which each UID stands once are equal for `Store.Equal` exactly where they have the same
  -- object under every UID.
  pub store_equal_iff :
      (s other : Store o)
      → distinct (keys s) ≡ true
      → distinct (keys other) ≡ true
      → (store_equal o s other ≡ true) ↔ ((k : String) → lookup s k ≡ lookup other k)
  unfolding store_equal
  store_equal_iff s other once once' =
      let all = every_by_iff (keys s) (entry_equal o s other) in
      let many = same_number_iff (length s) (length other) in
      (
        λ h.
            let as_many = many.0 (ground arith) in
            let each = all.0 (ground arith) in
            let within : (j : String) (x : o.Object)
                → lookup s j ≡ some x
                → lookup other j ≡ some x =
              λ j x e.
                (entry_equal_iff s other j x e).0
                  (each j (mem_of_contains (keys s) j ((lookup-keys s j).1 (x, e)))) in
            λ k. elim (Option-cases (lookup s k)) [
              | inl gone ↦ gone ∙ sym (nothing_else s other k once as_many within gone)
              | inr (x, e) ↦ e ∙ sym (within k x e)
            ],
        λ h.
            let there =
              length-le_of_distinct (keys s) (keys other) once
                (keys_within s other (λ k x e. sym (h k) ∙ e)) in
            let back =
              length-le_of_distinct (keys other) (keys s) once'
                (keys_within other s (λ k x e. h k ∙ e)) in
            let as_many = many.1 (omega (arith, length-keys s, length-keys other)) in
            let each = all.1 (λ k m.
              let (x, e) = (lookup-keys s k).0 (contains_of_mem (keys s) k m) in
              (entry_equal_iff s other k x e).1 (sym (h k) ∙ e)) in
            ground arith,
      )

  store_deep_copy_lem : (s : Store o) → store_deep_copy o s ≡ s
  unfolding store_deep_copy
  store_deep_copy_lem [] = refl
  store_deep_copy_lem ((uid, x) ∷ s) =
      ap₂ (λ y r. (uid, y) ∷ r) (laws.deep_copy_object_lem x) (store_deep_copy_lem s)

  -- A deep copy of a store has the same object under every UID.
  pub store_equal-deep_copy :
      (s : Store o) → distinct (keys s) ≡ true → store_equal o s (store_deep_copy o s) ≡ true
  store_equal-deep_copy s once =
      rw (store_deep_copy_lem s) ((store_equal_iff s s once once).1 (λ k. refl))

mem-values :
    {A : Type 0} (s : List (String × A)) (x : A)
    → Memᴰ x (values s) ↔ ((k : String) × Memᴰ (k, x) s)
mem-values [] x = (λ m. absurd (Memᴰ.not-nil m), λ (k, m). absurd (Memᴰ.not-nil m))
mem-values {A} ((j, y) ∷ s) x =
    let (to, from) = mem-values s x in
    (
      λ m.
          ⊎_elim (λ e. (j, Memᴰ.head (ap (λ z. (j, z)) e)))
            (λ later. let (k, n) = to later in (k, Memᴰ.tail n)) (Memᴰ.cases_cons m),
      λ (k, m).
          ⊎_elim (λ e. Memᴰ.head (ap (λ (p : String × A). p.1) e))
            (λ later. Memᴰ.tail (from (k, later))) (Memᴰ.cases_cons m),
    )

module _ (o : Objects) where
  -- `FilterByGroupKind` of a store in which each UID stands once gives exactly the objects that the
  -- store has under some UID and that are of the kind.
  pub mem-filter_by_group_kind :
      (s : Store o) (gk : GroupKind) (x : o.Object)
      → distinct (keys s) ≡ true
      → Memᴰ x (filter_by_group_kind o s gk)
        ↔ (((k : String) × (lookup s k ≡ some x)) × (o.group_kind x ≡ gk))
  unfolding filter_by_group_kind store_filter
  mem-filter_by_group_kind s gk x once =
      let of_kind = same_kind_iff (o.group_kind x) gk in
      let tests : o.Object → Bool = λ y.
        every_by {A = o.Object → Bool} ((λ (z : o.Object). same_kind (o.group_kind z) gk) ∷ [])
          (λ p. p y) in
      let filtered = mem-filter tests (values s) x in
      (
        λ m.
            let (there, test) = filtered.0 m in
            let (k, n) = (mem-values s x).0 there in
            ((k, (lookup_iff_mem s k x once).1 n), of_kind.0 (and_true _ ∙ test)),
        λ ((k, e), same). filtered.1 (
          (mem-values s x).1 (k, (lookup_iff_mem s k x once).0 e),
          sym (and_true _) ∙ of_kind.1 same,
        ),
      )
    where
      and_true : (b : Bool) → b ≡ (b && true)
      and_true true = refl
      and_true false = refl
