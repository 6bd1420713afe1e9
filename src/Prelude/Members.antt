-- ===== src/Prelude/Members.antt =====
-- Membership of a text in a list of texts, as a test.
use Prim.Native.String.{String}
use Prim.Native.Nat.{◌≤◌, ◌<◌}
use mathlib.Core.Path.{◌≡◌, refl, sym}
use mathlib.Core.Bool.{Bool, true, false, not, ◌&&◌, ◌||◌}
use mathlib.Core.Logic.{inl, inr, ⊎_elim}
use mathlib.Core.List.Memᴰ
use mathlib.Core.List.{List, [], ◌∷◌, ◌++◌, Memᴰ}
use native.Mathlib.Omega.{arith}
use text.Mathlib.Text.{◌==◌}
use text.Mathlib.TextEquality.{eq_iff}
use policy_machinery.Prelude.Tests.{Bool-cases}
use policy_machinery.Prelude.Slices.{length, filter}

abbrev pub contains : List String → String → Bool
contains [] a = false
contains (x ∷ xs) a = x == a || contains xs a

-- No text stands twice.
abbrev pub distinct : List String → Bool
distinct [] = true
distinct (x ∷ xs) = not (contains xs x) && distinct xs

pub contains-append :
    (xs ys : List String) (a : String) → contains (xs ++ ys) a ≡ (contains xs a || contains ys a)
contains-append [] ys a = refl
contains-append (x ∷ xs) ys a = ground (arith, contains-append xs ys a)

pub contains-filter :
    (p : String → Bool) (xs : List String) (a : String)
    → contains (filter p xs) a ≡ (contains xs a && p a)
contains-filter p [] a = refl
contains-filter p (x ∷ xs) a = ground (arith, contains-filter p xs a, eq_iff x a)

-- `delete(m, k)` on a map that is read as a set of keys.
abbrev pub remove : String → List String → List String
remove k = filter (λ x. not (k == x))

pub contains-remove :
    (k : String) (xs : List String) (a : String)
    → contains (remove k xs) a ≡ (contains xs a && not (k == a))
contains-remove k xs a = contains-filter (λ x. not (k == x)) xs a

length-remove-le : (k : String) (ys : List String) → length (remove k ys) ≤ length ys
length-remove-le k [] = omega arith
length-remove-le k (y ∷ ys) = ground (arith, length-remove-le k ys)

length-remove-lt :
    (k : String) (ys : List String) → contains ys k ≡ true → length (remove k ys) < length ys
length-remove-lt k [] h = ground arith
length-remove-lt k (y ∷ ys) h =
    ground (arith, length-remove-lt k ys, length-remove-le k ys, eq_iff y k, eq_iff k y)

-- A list without repetition whose members all stand in another is no longer than that one.
pub length-le_of_distinct :
    (xs ys : List String)
    → distinct xs ≡ true
    → ((a : String) → contains xs a ≡ true → contains ys a ≡ true)
    → length xs ≤ length ys
length-le_of_distinct [] ys d h = omega arith
length-le_of_distinct (x ∷ xs) ys d h = ground (
  arith,
  h x,
  eq_iff x x,
  length-remove-lt x ys,
  length-le_of_distinct xs (remove x ys) rest inside,
)
  where
    rest : distinct xs ≡ true
    rest = ground arith

    inside : (a : String) → contains xs a ≡ true → contains (remove x ys) a ≡ true
    inside a m = ground (arith, d, h a, contains-remove x ys a, eq_iff x a)

pub contains_of_mem : (xs : List String) (a : String) → Memᴰ a xs → contains xs a ≡ true
contains_of_mem [] a m = absurd (Memᴰ.not-nil m)
contains_of_mem (x ∷ xs) a m =
    ⊎_elim (λ e. ground (arith, eq_iff x a)) (λ later. ground (arith, contains_of_mem xs a later))
      (Memᴰ.cases_cons m)

pub mem_of_contains : (xs : List String) (a : String) → contains xs a ≡ true → Memᴰ a xs
mem_of_contains [] a h = absurd (clash h)
  where
    clash : ◌≡◌ {A = Bool} false true → ⊥
    clash e = cc
mem_of_contains (x ∷ xs) a h = elim (Bool-cases (x == a)) [
  | inl same ↦ Memᴰ.head (sym ((eq_iff x a).0 same))
  | inr differs ↦ Memᴰ.tail (mem_of_contains xs a (ground arith))
]
