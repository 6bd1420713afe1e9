-- ===== src/Dag/Visit.antt =====
-- What one round of the outer loop does to the parents, the children and the queue.
use policy_machinery.Prelude.{
  ◌+◌, ◌≤◌, String, ◌≡◌, refl, ◌||◌, ◌&&◌, List, [], ◌∷◌, arith, length, contains, eq_iff, remove,
  is_empty, if◌then◌else◌, contains-append, length-append,
}
use policy_machinery.Dag.{Kahn, relax, relax_all}

remove-remove : (n : String) (xs : List String) → remove n (remove n xs) ≡ remove n xs
remove-remove n [] = refl
remove-remove n (x ∷ xs) = ground (arith, remove-remove n xs)

module _ (n : String) where
  pub parents-relax_all :
      (ms : List String) (st : Kahn) (a : String)
      → (relax_all n ms st).parents a
        ≡ (if contains ms a then remove n (st.parents a) else st.parents a)
  unfolding relax_all relax
  parents-relax_all [] st a = refl
  parents-relax_all (m ∷ ms) st a =
      ground
        (arith, parents-relax_all ms (relax n m st) a, remove-remove n (st.parents a), eq_iff m a)

  pub children-relax_all :
      (ms : List String) (st : Kahn) → (relax_all n ms st).children ≡ st.children
  unfolding relax_all relax
  children-relax_all [] st = refl
  children-relax_all (m ∷ ms) st = children-relax_all ms (relax n m st)

  pub queue-relax_all :
      (ms : List String) (st : Kahn) (a : String)
      → contains (relax_all n ms st).queue a
        ≡ (contains st.queue a || contains ms a && is_empty (remove n (st.parents a)))
  unfolding relax_all relax
  queue-relax_all [] st a = ground arith
  queue-relax_all (m ∷ ms) st a = ground (
    arith,
    queue-relax_all ms (relax n m st) a,
    remove-remove n (st.parents a),
    contains-append st.queue (m ∷ []) a,
    eq_iff m a,
  )

  pub length-queue-relax_all :
      (ms : List String) (st : Kahn)
      → length (relax_all n ms st).queue ≤ length st.queue + length ms
  unfolding relax_all relax
  length-queue-relax_all [] st = omega arith
  length-queue-relax_all (m ∷ ms) st =
      ground (arith, length-queue-relax_all ms (relax n m st), length-append st.queue (m ∷ []))
