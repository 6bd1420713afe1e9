-- ===== src/Controller/Entries.antt =====
-- Stores as lists of entries: keys that stand once, and objects under their own UIDs.
use mathlib.Core.List.Memᴰ
use policy_machinery.Controller.Methods.{Objects}
use policy_machinery.Controller.Cache.{Store}
use policy_machinery.Prelude.{
  String, Bool, List, Option, none, some, [], ◌∷◌, true, false, ◌≡◌, lookup, put, delete, keys,
  contains, distinct, Memᴰ, Option-cases, arith, ◌↔◌, Bool-cases, ◌==◌, inl, inr, lookup-keys,
  ⊎_elim, eq_iff, ap, contains_of_mem, sym,
}

module _ {ℓ} {A : Type ℓ} where
  pub lookup-none_of_distinct :
      (k : String) (m : List (String × A)) → contains (keys m) k ≡ false → lookup m k ≡ none
  lookup-none_of_distinct k m h = elim (Option-cases (lookup m k)) [
    | inl none_there ↦ none_there
    | inr (v, e) ↦ absurd (clash ((lookup-keys m k).1 (v, e)) h)
  ]
    where
      clash : {b : Bool} → b ≡ true → b ≡ false → ⊥
      clash e f = cc

  contains-keys-delete :
      (k j : String) (m : List (String × A))
      → contains (keys m) j ≡ false
      → contains (keys (delete k m)) j ≡ false
  contains-keys-delete k j [] h = h
  contains-keys-delete k j ((i, w) ∷ m) h = ground (arith, contains-keys-delete k j m)

  pub distinct-keys-delete :
      (k : String) (m : List (String × A))
      → distinct (keys m) ≡ true
      → distinct (keys (delete k m)) ≡ true
  distinct-keys-delete k [] h = h
  distinct-keys-delete k ((i, w) ∷ m) h =
      ground (arith, distinct-keys-delete k m, contains-keys-delete k i m)

  pub mem_keys : (m : List (String × A)) {k : String} {v : A} → Memᴰ (k, v) m → Memᴰ k (keys m)
  mem_keys [] n = absurd (Memᴰ.not-nil n)
  mem_keys ((j, w) ∷ m) n =
      ⊎_elim (λ here. Memᴰ.head (ap (λ (p : String × A). p.0) here))
        (λ later. Memᴰ.tail (mem_keys m later)) (Memᴰ.cases_cons n)

  -- where keys stand once, an entry is what its key leads to
  pub lookup_iff_mem :
      (m : List (String × A)) (k : String) (v : A)
      → distinct (keys m) ≡ true
      → (lookup m k ≡ some v) ↔ Memᴰ (k, v) m
  lookup_iff_mem [] k v h = (λ e. absurd (missing e), λ m. absurd (Memᴰ.not-nil m))
    where
      missing : ◌≡◌ {A = Option A} none (some v) → ⊥
      missing e = cc
  lookup_iff_mem ((j, w) ∷ m) k v h = elim (Bool-cases (j == k)) [
    | inl same ↦ (
      λ e. Memᴰ.head (pair (sym ((eq_iff j k).0 same)) (newest (rw same at e))),
      λ n.
          ⊎_elim (λ here. rw same (ap some (sym (ap (λ (p : String × A). p.1) here))))
            (λ later. absurd (repeated same later)) (Memᴰ.cases_cons n),
    )
    | inr differs ↦ (
      λ e. Memᴰ.tail ((lookup_iff_mem m k v (rest_distinct h)).0 (rw differs at e)),
      λ n.
          ⊎_elim
            (λ here.
              absurd (clash ((eq_iff j k).1 (sym (ap (λ (p : String × A). p.0) here))) differs))
            (λ later. rw differs ((lookup_iff_mem m k v (rest_distinct h)).1 later))
            (Memᴰ.cases_cons n),
    )
  ]
    where
      clash : {b : Bool} → b ≡ true → b ≡ false → ⊥
      clash e f = cc

      newest : some w ≡ some v → v ≡ w
      newest e = cc

      pair : {a b : String} {x y : A} → a ≡ b → x ≡ y → ◌≡◌ {A = String × A} (a, x) (b, y)
      pair e f = cc

      rest_distinct : distinct (j ∷ keys m) ≡ true → distinct (keys m) ≡ true
      rest_distinct d = ground arith

      repeated : j == k ≡ true → Memᴰ (k, v) m → ⊥
      repeated same later =
          ground (arith, h, same, eq_iff j k, contains_of_mem (keys m) k (mem_keys m later))

module _ (o : Objects) where
  -- every object stands under its UID
  abbrev pub IsUidKeyed : Store o → Type 0
  IsUidKeyed [] = Unit
  IsUidKeyed ((uid, x) ∷ s) = (o.get_uid x ≡ uid) × IsUidKeyed s

  pub put-IsUidKeyed :
      (uid : String) (x : o.Object) (s : Store o)
      → o.get_uid x ≡ uid
      → IsUidKeyed s
      → IsUidKeyed (put uid x s)
  put-IsUidKeyed uid x [] e h = (e, tt)
  put-IsUidKeyed uid x ((j, y) ∷ s) e h = elim (Bool-cases (j == uid)) [
    | inl same ↦ rw same (e, h.1)
    | inr differs ↦ rw differs (h.0, put-IsUidKeyed uid x s e h.1)
  ]

  pub delete-IsUidKeyed : (uid : String) (s : Store o) → IsUidKeyed s → IsUidKeyed (delete uid s)
  delete-IsUidKeyed uid [] h = h
  delete-IsUidKeyed uid ((j, y) ∷ s) h = elim (Bool-cases (j == uid)) [
    | inl same ↦ rw same (delete-IsUidKeyed uid s h.1)
    | inr differs ↦ rw differs (h.0, delete-IsUidKeyed uid s h.1)
  ]
