-- ===== src/Dag/Finite.antt =====
-- In a finite graph with no cycle every node is accessible: a backward walk that never repeats a
-- node is no longer than the number of nodes.
use mathlib.Core.WellFounded.{Acc}
use policy_machinery.Prelude.{
  ℕ, zero, suc, ◌+◌, ◌<◌, String, ◌≡◌, refl, subst, Bool, true, false, List, [], ◌∷◌, arith, length,
  contains, distinct, length-le_of_distinct, Bool-cases, eq_iff, inl, inr, ◌==◌, ◌⊎◌,
}
use policy_machinery.Dot.{Dot}
use policy_machinery.Dag.Cycle.{Edge, IsClosed, Walk, here, IsAcyclic, cons-Walk}

module _ (d : Dot) (g : d.Graph) where
  -- `trail` is where a backward walk to `a` came from.
  record Trail (a : String) (trail : List String) : Type 0 where
    fresh : distinct (a ∷ trail) ≡ true
    inside : (b : String) → contains (a ∷ trail) b ≡ true → contains (d.find_nodes g) b ≡ true
    walks : (b : String) → contains (a ∷ trail) b ≡ true → Walk d g a b

  Trail-cons :
      {a u : String} {trail : List String}
      → IsClosed d g
      → IsAcyclic d g
      → Trail a trail
      → Edge d g u a
      → Trail u (a ∷ trail)
  Trail-cons {a} {u} {trail} closed acyclic t e = record {
    fresh = new (Bool-cases (contains (a ∷ trail) u));
    inside = λ b m. ground (arith, t.inside b, closed.source u a e, eq_iff u b);
    walks = λ b m. elim (Bool-cases (u == b)) [
      | inl same ↦ subst (Walk d g u) ((eq_iff u b).0 same) here
      | inr other ↦ cons-Walk e (t.walks b (ground arith))
    ];
  }
    where
      new :
          (contains (a ∷ trail) u ≡ true) ⊎ (contains (a ∷ trail) u ≡ false)
          → distinct (u ∷ a ∷ trail) ≡ true
      new (inl m) = absurd (acyclic a (u, t.walks u m, e))
      new (inr m) = ground (arith, t.fresh)

  acc_of_Trail :
      (fuel : ℕ) (a : String) (trail : List String)
      → IsClosed d g
      → IsAcyclic d g
      → Trail a trail
      → length (d.find_nodes g) < fuel + length (a ∷ trail)
      → Acc (Edge d g) a
  acc_of_Trail zero a trail closed acyclic t h =
      absurd (omega (arith, length-le_of_distinct (a ∷ trail) (d.find_nodes g) t.fresh t.inside))
  acc_of_Trail (suc fuel) a trail closed acyclic t h = Acc.intro a λ u e.
      acc_of_Trail fuel u (a ∷ trail) closed acyclic (Trail-cons closed acyclic t e) (omega arith)

  Trail-start : (a : String) → contains (d.find_nodes g) a ≡ true → Trail a []
  Trail-start a m = record {
    fresh = refl;
    inside = λ b n. ground (arith, eq_iff a b);
    walks = λ b n. subst (Walk d g a) ((eq_iff a b).0 (ground arith)) here;
  }

  pub acc_of_IsAcyclic : IsClosed d g → IsAcyclic d g → (a : String) → Acc (Edge d g) a
  acc_of_IsAcyclic closed acyclic a = elim (Bool-cases (contains (d.find_nodes g) a)) [
    | inl m ↦
        acc_of_Trail (length (d.find_nodes g)) a [] closed acyclic (Trail-start a m) (omega arith)
    | inr m ↦ Acc.intro a (λ u e. absurd (absent (closed.target u a e) m))
  ]
    where
      absent : {b : Bool} → b ≡ true → b ≡ false → ⊥
      absent p q = cc
