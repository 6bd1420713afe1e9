-- ===== src/Dag/Correct.antt =====
-- `is_dag` answers exactly whether the graph has no cycle.
use mathlib.Core.WellFounded.{Acc}
use policy_machinery.Prelude.{
  some, some-injective, Bool, String, ◌≡◌, ◌↔◌, refl, ap, true, List, [], ◌∷◌, arith, inl, inr,
  contains, eq_iff, ◌==◌, is_empty, is_empty_iff, Bool-cases, List-cases,
}
use native.Mathlib.Nat.{le_refl}
use policy_machinery.Dot.{Dot, DotLaws}
use policy_machinery.Dag.{Kahn, build, enough, exhausted, is_dag}
use policy_machinery.Dag.Cycle.{Edge, IsClosed, IsAcyclic, acc-not-Cycle}
use policy_machinery.Dag.Finite.{acc_of_IsAcyclic}
use policy_machinery.Dag.Loop.{Inv, Inv-build, loop-queue}

module _ (d : Dot) (g : d.Graph) where
  exhausted-at :
      (f : String → List String) (ns : List String) (a : String)
      → exhausted d f ns ≡ true
      → contains ns a ≡ true
      → f a ≡ []
  exhausted-at f [] a h m = ground arith
  exhausted-at f (n ∷ ns) a h m = elim (Bool-cases (n == a)) [
    | inl same ↦ rw (← (eq_iff n a).0 same) (is_empty_iff (f n) (ground arith))
    | inr other ↦ exhausted-at f ns a (ground arith) (ground arith)
  ]

  exhausted-of :
      (f : String → List String) (ns : List String)
      → ((a : String) → contains ns a ≡ true → f a ≡ [])
      → exhausted d f ns ≡ true
  exhausted-of f [] h = refl
  exhausted-of f (n ∷ ns) h = ground (
    arith,
    ap is_empty (h n (ground (arith, eq_iff n n))),
    exhausted-of f ns (λ a m. h a (ground arith)),
  )

  module _ (closed : IsClosed d g) (st : Kahn) (done : List String) (inv : Inv d g st done)
      (empty : st.queue ≡ []) where
    no_parents :
        (a : String) → ((u : String) → Edge d g u a → contains done u ≡ true) → st.parents a ≡ []
    no_parents a before = elim (List-cases (st.parents a)) [
      | inl e ↦ e
      | inr (u, us, e) ↦
          ground (arith, inv.parents a u, before u, ap (λ xs. contains xs u) e, eq_iff u u)
    ]

    -- with the queue empty, a node whose predecessors are all done is done
    done_of_Acc :
        {a : String}
        → Acc (Edge d g) a
        → contains (d.find_nodes g) a ≡ true
        → contains done a ≡ true
    done_of_Acc {a} (Acc.intro _ smaller) m = ground (
      arith,
      inv.complete a m (no_parents a (λ u e. done_of_Acc (smaller u e) (closed.source u a e))),
      ap (λ xs. contains xs a) empty,
    )

    -- a node whose children are gone is done, or never had any
    pub exhausted_iff : (exhausted d st.children (d.find_nodes g) ≡ true) ↔ IsAcyclic d g
    exhausted_iff = (
      λ h a. acc-not-Cycle (Acc.intro a (λ u e. inv.founded u (reached h u a e))),
      λ acyclic. exhausted-of st.children (d.find_nodes g) λ a m.
          ground (arith, inv.children a, done_of_Acc (acc_of_IsAcyclic d g closed acyclic a) m),
    )
      where
        reached :
            exhausted d st.children (d.find_nodes g) ≡ true
            → (a b : String) → Edge d g a b
            → contains done a ≡ true
        reached h a b e = ground (
          arith,
          inv.children a,
          exhausted-at st.children (d.find_nodes g) a h (closed.source a b e),
          ap (λ xs. contains xs b)
              (exhausted-at st.children (d.find_nodes g) a h (closed.source a b e)),
        )

-- On a graph whose edges join its nodes `is_dag` does not panic.
pub is_dag_returns :
    (d : Dot) (g : d.Graph) → DotLaws d → IsClosed d g → (b : Bool) × (is_dag d g ≡ some b)
unfolding is_dag
is_dag_returns d g laws closed =
    let (st, _, e, _, _) =
      loop-queue d g closed (enough d g) (build d g) [] (Inv-build d g laws)
        (le_refl (enough d g)) in
    (exhausted d st.children (d.find_nodes g), rw (is_dag, e) refl)

-- On a graph whose edges join its nodes, `is_dag` answers true exactly when no walk leads from a
-- node back to itself.
pub is_dag_iff :
    (d : Dot) (g : d.Graph) → DotLaws d → IsClosed d g → (is_dag d g ≡ some true) ↔ IsAcyclic d g
unfolding is_dag
is_dag_iff d g laws closed =
    let (st, done, e, inv, empty) =
      loop-queue d g closed (enough d g) (build d g) [] (Inv-build d g laws)
        (le_refl (enough d g)) in
    let iff = exhausted_iff d g closed st done inv empty in
    rw (is_dag, e) (λ h. iff.0 (some-injective h), λ acyclic. ap some (iff.1 acyclic))
