-- ===== src/Prelude/Mem.antt =====
-- Membership with its place, in what the slice helpers return.
use mathlib.Core.Path.{◌≡◌, refl, sym, ap, ◌∙◌, subst}
use mathlib.Core.Logic.{◌↔◌, inl, inr, ⊎_elim}
use mathlib.Core.Bool.{Bool, true, false}
use mathlib.Core.Option.{Option, none, some}
use mathlib.Core.List.{List, [], ◌∷◌, Memᴰ}
use mathlib.Core.List.Memᴰ
use native.Mathlib.Omega.{arith}
use policy_machinery.Prelude.Tests.{Bool-cases, Option-cases}
use policy_machinery.Prelude.Slices.{filter, filter_map, flat_map, contains_by}

module _ {ℓ} {A : Type ℓ} where
  pub mem-filter :
      (p : A → Bool) (xs : List A) (a : A) → Memᴰ a (filter p xs) ↔ (Memᴰ a xs × (p a ≡ true))
  mem-filter p [] a = (λ m. absurd (Memᴰ.not-nil m), λ m. m.0)
  mem-filter p (x ∷ xs) a = elim (Bool-cases (p x)) [
    | inl kept ↦ (
      λ m.
          ⊎_elim (λ e. (Memᴰ.head e, ap p e ∙ kept))
            (λ later. let (n, h) = (mem-filter p xs a).0 later in (Memᴰ.tail n, h))
            (Memᴰ.cases_cons (rw kept at m)),
      λ (m, h). rw kept (
          ⊎_elim Memᴰ.head (λ later. Memᴰ.tail ((mem-filter p xs a).1 (later, h)))
            (Memᴰ.cases_cons m)),
    )
    | inr dropped ↦ (
      λ m. let (n, h) = (mem-filter p xs a).0 (rw dropped at m) in (Memᴰ.tail n, h),
      λ (m, h). rw dropped (
          ⊎_elim (λ e. absurd (clash (sym (ap p e) ∙ h) dropped))
            (λ later. (mem-filter p xs a).1 (later, h)) (Memᴰ.cases_cons m)),
    )
  ]
    where
      clash : {b : Bool} → b ≡ true → b ≡ false → ⊥
      clash e f = cc

  -- a test that some element passes, with that element
  pub contains_by_iff :
      (xs : List A) (p : A → Bool)
      → (contains_by xs p ≡ true) ↔ ((a : A) × Memᴰ a xs × (p a ≡ true))
  contains_by_iff [] p = (λ h. absurd (clash h), λ (a, m, h). absurd (Memᴰ.not-nil m))
    where
      clash : ◌≡◌ {A = Bool} false true → ⊥
      clash e = cc
  contains_by_iff (x ∷ xs) p = (
    λ h. elim (Bool-cases (p x)) [
      | inl here ↦ (x, Memᴰ.head refl, here)
      | inr there ↦ let (a, m, e) = (contains_by_iff xs p).0 (rw there at h) in (a, Memᴰ.tail m, e)
    ],
    λ (a, m, e).
        ⊎_elim (λ same. at_head a same e)
          (λ later. at_tail ((contains_by_iff xs p).1 (a, later, e))) (Memᴰ.cases_cons m),
  )
    where
      at_head : (a : A) → a ≡ x → p a ≡ true → contains_by (x ∷ xs) p ≡ true
      at_head a same e = rw (← same, e)

      at_tail : contains_by xs p ≡ true → contains_by (x ∷ xs) p ≡ true
      at_tail h = ground arith

module _ {ℓ κ} {A : Type ℓ} {B : Type κ} where
  pub mem-flat_map :
      (f : A → List B) (xs : List A) (b : B)
      → Memᴰ b (flat_map f xs) ↔ ((a : A) × Memᴰ a xs × Memᴰ b (f a))
  mem-flat_map f [] b = (λ m. absurd (Memᴰ.not-nil m), λ (a, m, n). absurd (Memᴰ.not-nil m))
  mem-flat_map f (x ∷ xs) b = (
    λ m.
        ⊎_elim (λ n. (x, Memᴰ.head refl, n))
          (λ later. let (a, k, n) = (mem-flat_map f xs b).0 later in (a, Memᴰ.tail k, n))
          (Memᴰ.append_cases (f x) m),
    λ (a, m, n).
        ⊎_elim (λ same. Memᴰ.append_left _ (subst (λ y. Memᴰ b (f y)) same n))
          (λ later. Memᴰ.append_right (f x) ((mem-flat_map f xs b).1 (a, later, n)))
          (Memᴰ.cases_cons m),
  )

  pub mem-filter_map :
      (f : A → Option B) (xs : List A) (b : B)
      → Memᴰ b (filter_map f xs) ↔ ((a : A) × Memᴰ a xs × (f a ≡ some b))
  mem-filter_map f [] b = (λ m. absurd (Memᴰ.not-nil m), λ (a, m, n). absurd (Memᴰ.not-nil m))
  mem-filter_map f (x ∷ xs) b = elim (Option-cases (f x)) [
    | inl dropped ↦ (
      λ m.
          let (a, k, e) = (mem-filter_map f xs b).0 (rw (dropped, filter_map) at m) in
          (a, Memᴰ.tail k, e),
      λ (a, m, e).
          rw (dropped, filter_map)
            (⊎_elim (λ same. absurd (clash (sym (ap f same) ∙ e) dropped))
              (λ later. (mem-filter_map f xs b).1 (a, later, e)) (Memᴰ.cases_cons m)),
    )
    | inr (y, kept) ↦ (
      λ m.
          ⊎_elim (λ e. (x, Memᴰ.head refl, kept ∙ ap some (sym e)))
            (λ later. let (a, k, e) = (mem-filter_map f xs b).0 later in (a, Memᴰ.tail k, e))
            (Memᴰ.cases_cons (rw (kept, filter_map) at m)),
      λ (a, m, e).
          rw (kept, filter_map)
            (⊎_elim (λ same. Memᴰ.head (unwrap (sym e ∙ ap f same ∙ kept)))
              (λ later. Memᴰ.tail ((mem-filter_map f xs b).1 (a, later, e))) (Memᴰ.cases_cons m)),
    )
  ]
    where
      clash : {o : Option B} {y : B} → o ≡ some y → o ≡ none → ⊥
      clash e f = cc

      unwrap : {y z : B} → some y ≡ some z → y ≡ z
      unwrap e = cc

pub mem_singleton {ℓ} : {A : Type ℓ} {x y : A} → Memᴰ x (y ∷ []) → x ≡ y
mem_singleton m = ⊎_elim (λ same. same) (λ later. absurd (Memᴰ.not-nil later)) (Memᴰ.cases_cons m)
