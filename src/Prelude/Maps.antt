-- ===== src/Prelude/Maps.antt =====
-- Go maps with text keys, as association lists. The order of an iteration is not specified in Go;
-- here it is that of the list.
use Prim.Native.String.{String}
use mathlib.Core.Path.{◌≡◌, refl, ap, ◌∙◌}
use mathlib.Core.Logic.{◌↔◌, ◌⊎◌, inl, inr}
use mathlib.Core.Bool.{Bool, false, true, ◌||◌}
use mathlib.Core.Option.{Option, none, some}
use mathlib.Core.List.{List, [], ◌∷◌, map, Memᴰ}
use native.Mathlib.Omega.{arith}
use text.Mathlib.Text.{◌==◌}
use text.Mathlib.TextEquality.{eq_iff}
use policy_machinery.Prelude.Tests.{Bool-cases, if◌then◌else◌}
use Prim.Native.Nat.{suc}
use policy_machinery.Prelude.Slices.{length}
use policy_machinery.Prelude.Members.{contains, distinct}

module _ {ℓ} {A : Type ℓ} where
  abbrev pub put : String → A → List (String × A) → List (String × A)
  put k v [] = (k, v) ∷ []
  put k v ((j, w) ∷ m) = let rest = put k v m in if j == k then (k, v) ∷ m else (j, w) ∷ rest

  abbrev pub lookup : List (String × A) → String → Option A
  lookup [] k = none
  lookup ((j, v) ∷ m) k = if j == k then some v else lookup m k

  -- delete(m, k)
  abbrev pub delete : String → List (String × A) → List (String × A)
  delete k [] = []
  delete k ((j, v) ∷ m) = let rest = delete k m in if j == k then rest else (j, v) ∷ rest

  abbrev pub keys : List (String × A) → List String
  keys [] = []
  keys ((k, v) ∷ m) = k ∷ keys m

  -- lo.Values
  abbrev pub values : List (String × A) → List A
  values [] = []
  values ((k, v) ∷ m) = v ∷ values m

  -- a key has a value, and only a key has one
  pub lookup-keys :
      (m : List (String × A)) (k : String)
      → (contains (keys m) k ≡ true) ↔ ((v : A) × (lookup m k ≡ some v))
  lookup-keys [] k = (λ h. absurd (clash h), λ (v, h). absurd (none-ne h))
    where
      clash : ◌≡◌ {A = Bool} false true → ⊥
      clash e = cc

      none-ne : {v : A} → ◌≡◌ {A = Option A} none (some v) → ⊥
      none-ne e = cc
  lookup-keys ((j, v) ∷ m) k = elim (Bool-cases (j == k)) [
    | inl same ↦ (λ h. (v, rw same), λ h. rw same)
    | inr differs ↦ rw differs (lookup-keys m k)
  ]

  pub lookup-put :
      (k j : String) (v : A) (m : List (String × A))
      → lookup (put k v m) j ≡ (if k == j then some v else lookup m j)
  lookup-put k j v [] = refl
  lookup-put k j v ((i, w) ∷ m) =
      ground (arith, lookup-put k j v m, eq_iff i k, eq_iff i j, eq_iff k j)

  pub lookup-delete :
      (k j : String) (m : List (String × A))
      → lookup (delete k m) j ≡ (if k == j then none else lookup m j)
  lookup-delete k j [] = ground arith
  lookup-delete k j ((i, w) ∷ m) =
      ground (arith, lookup-delete k j m, eq_iff i k, eq_iff i j, eq_iff k j)

  pub contains-keys-put :
      (k j : String) (v : A) (m : List (String × A))
      → contains (keys (put k v m)) j ≡ (k == j || contains (keys m) j)
  contains-keys-put k j v [] = refl
  contains-keys-put k j v ((i, w) ∷ m) =
      ground (arith, contains-keys-put k j v m, eq_iff i k, eq_iff i j, eq_iff k j)

  pub distinct-keys-put :
      (k : String) (v : A) (m : List (String × A))
      → distinct (keys m) ≡ true
      → distinct (keys (put k v m)) ≡ true
  distinct-keys-put k v [] h = refl
  distinct-keys-put k v ((i, w) ∷ m) h =
      ground (arith, distinct-keys-put k v m, contains-keys-put k i v m, eq_iff i k, eq_iff k i)

module _ {ℓ} {A : Type ℓ} (key : A → String) where
  -- lo.SliceToMap, with the values as they are: a later entry of a key takes the place of an earlier
  abbrev put_all : List (String × A) → List A → List (String × A)
  put_all m [] = m
  put_all m (x ∷ xs) = put_all (put (key x) x m) xs

  abbrev pub slice_to_map : List A → List (String × A)
  slice_to_map = put_all []

module _ {ℓ} {A : Type ℓ} (key : A → String) where
  lookup-put_all :
      (m : List (String × A)) (xs : List A) (k : String) (x : A)
      → lookup (put_all key m xs) k ≡ some x
      → (lookup m k ≡ some x) ⊎ (key x ≡ k) × Memᴰ x xs
  lookup-put_all m [] k x h = inl h
  lookup-put_all m (y ∷ ys) k x h = elim (lookup-put_all (put (key y) y m) ys k x h) [
    | inl before ↦ elim (Bool-cases (key y == k)) [
      | inl same ↦
          let e : some y ≡ some x = ground (arith, lookup-put (key y) k y m) in
          inr (ap key (newest y x e) ∙ (eq_iff (key y) k).0 same, Memᴰ.head (newest y x e))
      | inr differs ↦ inl (ground (arith, lookup-put (key y) k y m))
    ]
    | inr (named, later) ↦ inr (named, Memᴰ.tail later)
  ]
    where
      newest : (y x : A) → some y ≡ some x → x ≡ y
      newest y x e = cc

  -- what the map holds under a key is one of the slice, of that key
  pub lookup-slice_to_map :
      (xs : List A) (k : String) (x : A)
      → lookup (slice_to_map key xs) k ≡ some x
      → (key x ≡ k) × Memᴰ x xs
  lookup-slice_to_map xs k x h = elim (lookup-put_all [] xs k x h) [
    | inl impossible ↦ absurd (none-ne impossible)
    | inr found ↦ found
  ]
    where
      none-ne : ◌≡◌ {A = Option A} none (some x) → ⊥
      none-ne q = cc

  keys-put_all :
      (m : List (String × A)) (xs : List A) (k : String)
      → contains (keys (put_all key m xs)) k ≡ (contains (keys m) k || contains (map key xs) k)
  keys-put_all m [] k = ground arith
  keys-put_all m (y ∷ ys) k =
      ground (arith, keys-put_all (put (key y) y m) ys k, contains-keys-put (key y) k y m)

  pub keys-slice_to_map :
      (xs : List A) (k : String) → contains (keys (slice_to_map key xs)) k ≡ contains (map key xs) k
  keys-slice_to_map xs k = keys-put_all [] xs k

  distinct-put_all :
      (m : List (String × A)) (xs : List A)
      → distinct (keys m) ≡ true
      → distinct (keys (put_all key m xs)) ≡ true
  distinct-put_all m [] h = h
  distinct-put_all m (y ∷ ys) h =
      distinct-put_all (put (key y) y m) ys (distinct-keys-put (key y) y m h)

  -- no key stands twice
  pub distinct-slice_to_map : (xs : List A) → distinct (keys (slice_to_map key xs)) ≡ true
  distinct-slice_to_map xs = distinct-put_all [] xs refl

pub length-keys {ℓ} : {A : Type ℓ} (m : List (String × A)) → length (keys m) ≡ length m
length-keys [] = refl
length-keys (e ∷ m) = ap suc (length-keys m)
