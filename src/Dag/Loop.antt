-- ===== src/Dag/Loop.antt =====
-- The invariant of the outer loop, and that the loop ends with an empty queue.
use mathlib.Core.WellFounded.{Acc}
use policy_machinery.Prelude.{
  some, ℕ, zero, suc, ◌+◌, ◌≤◌, String, ◌≡◌, refl, ap, subst, true, not, ◌||◌, ◌&&◌, List, [], ◌∷◌,
  arith, length, inl, inr, ◌⊎◌, contains, eq_iff, ◌==◌, remove, is_empty, is_empty_iff, List-cases,
  length-zero, if◌then◌else◌, contains-remove, contains-filter, Bool-cases,
}
use policy_machinery.Dot.{Dot, DotLaws}
use policy_machinery.Dag.{all_indexed, Kahn, update, visit, loop, build, parents_of, remaining}
use policy_machinery.Dag.Cycle.{Edge, IsClosed}
use policy_machinery.Dag.Visit.{
  parents-relax_all, children-relax_all, queue-relax_all, length-queue-relax_all,
}

module _ (d : Dot) (g : d.Graph) where
  -- `done` holds the nodes that have left the queue.
  pub record Inv (st : Kahn) (done : List String) : Type 0 where
    pub parents :
        (a u : String)
        → contains (st.parents a) u ≡ (contains (d.edges_from g u) a && not (contains done u))
    pub children : (u : String) → st.children u ≡ (if contains done u then [] else d.edges_from g u)
    pub ready : (a : String) → contains st.queue a ≡ true → st.parents a ≡ []
    pub complete :
        (a : String)
        → contains (d.find_nodes g) a ≡ true
        → st.parents a ≡ []
        → (contains st.queue a || contains done a) ≡ true
    pub founded : (a : String) → contains done a ≡ true → Acc (Edge d g) a

  pub Inv-build : DotLaws d → Inv (build d g) []
  unfolding build
  Inv-build laws = record {
    parents = λ a u. ground (
      arith,
      contains-filter (λ from. contains (d.edges_from g from) a) (d.edge_sources g) u,
      laws.edge_sources-complete g u a,
    );
    children = λ u. refl;
    ready = λ a m.
        is_empty_iff (parents_of d g a)
          (ground (arith, contains-filter (λ b. is_empty (parents_of d g b)) (d.find_nodes g) a));
    complete = λ a m e. ground (
      arith,
      contains-filter (λ b. is_empty (parents_of d g b)) (d.find_nodes g) a,
      ap is_empty e,
    );
    founded = λ a m. ground arith;
  }

  module _ (n : String) (s : List String) (st : Kahn) (done : List String)
      (inv : Inv (record st { queue = n ∷ s }) done) where
    abbrev rest : Kahn
    rest = record st { queue = s }

    -- every predecessor of the head of the queue is done
    head_founded : Acc (Edge d g) n
    head_founded = Acc.intro n λ u e. inv.founded u (
        ground (
          arith,
          inv.parents n u,
          ap (λ xs. contains xs u) (inv.ready n (ground (arith, eq_iff n n))),
        ))

    visit-parents :
        (a : String)
        → (visit n rest).parents a
          ≡ (if contains (st.children n) a then remove n (st.parents a) else st.parents a)
    unfolding visit
    visit-parents a = parents-relax_all n (st.children n) rest a

    visit-queue :
        (a : String)
        → contains (visit n rest).queue a
          ≡ (contains s a || contains (st.children n) a && is_empty (remove n (st.parents a)))
    unfolding visit
    visit-queue a = queue-relax_all n (st.children n) rest a

    visit-children : (u : String) → (visit n rest).children u ≡ update st.children n [] u
    unfolding visit
    visit-children u = ap (λ f. update f n [] u) (children-relax_all n (st.children n) rest)

    Inv-visit : Inv (visit n rest) (n ∷ done)
    Inv-visit = record {
      parents = λ a u. ground (
        arith,
        visit-parents a,
        inv.parents a u,
        inv.parents a n,
        inv.children n,
        contains-remove n (st.parents a) u,
        eq_iff n u,
      );
      children = λ u. ground (arith, visit-children u, inv.children u, eq_iff n u);
      ready = λ a m. ground (
        arith,
        visit-parents a,
        visit-queue a,
        inv.ready a,
        is_empty_iff (remove n (st.parents a)),
      );
      complete =
          λ a m e. ground (arith, visit-parents a, visit-queue a, inv.complete a m, eq_iff n a);
      founded = λ a m. elim (Bool-cases (n == a)) [
        | inl same ↦ subst (Acc (Edge d g)) ((eq_iff n a).0 same) head_founded
        | inr other ↦ inv.founded a (ground arith)
      ];
    }

  remaining-update-le :
      (f : String → List String) (n : String) (ns : List String)
      → remaining (update f n []) ns ≤ remaining f ns
  remaining-update-le f n [] = omega arith
  remaining-update-le f n (m ∷ ns) = ground (arith, remaining-update-le f n ns)

  remaining-update :
      (f : String → List String) (n : String) (ns : List String)
      → contains ns n ≡ true
      → remaining (update f n []) ns + length (f n) ≤ remaining f ns
  remaining-update f n [] h = ground arith
  remaining-update f n (m ∷ ns) h = ground (
    arith,
    remaining-update f n ns,
    remaining-update-le f n ns,
    eq_iff n m,
    eq_iff m n,
    eq_iff n n,
  )

  abbrev work : Kahn → ℕ
  work st = length st.queue + remaining st.children (d.find_nodes g)

  module _ (closed : IsClosed d g) where
    -- children that are left belong to a node
    counted :
        (st : Kahn) (done : List String) (n : String)
        → Inv st done
        → (st.children n ≡ []) ⊎ (contains (d.find_nodes g) n ≡ true)
    counted st done n inv = elim (List-cases (st.children n)) [
      | inl none_left ↦ inl none_left
      | inr (c, cs, e) ↦ inr (
          closed.source n c
            (ground (arith, inv.children n, ap (λ xs. contains xs c) e, eq_iff c c)))
    ]

    visit-work :
        (n : String) (s : List String) (st : Kahn) (done : List String)
        → Inv (record st { queue = n ∷ s }) done
        → work (visit n (record st { queue = s }))
          ≤ length s + remaining st.children (d.find_nodes g)
    unfolding visit
    visit-work n s st done inv = ground (
      arith,
      ap (λ f. remaining (update f n []) (d.find_nodes g))
          (children-relax_all n (st.children n) (record st { queue = s })),
      length-queue-relax_all n (st.children n) (record st { queue = s }),
      counted (record st { queue = n ∷ s }) done n inv,
      remaining-update st.children n (d.find_nodes g),
      remaining-update-le st.children n (d.find_nodes g),
      ap length {x = st.children n} {y = []},
    )

    all_indexed-of :
        (ms : List String)
        → ((b : String) → contains ms b ≡ true → contains (d.find_nodes g) b ≡ true)
        → all_indexed (d.find_nodes g) ms ≡ true
    all_indexed-of [] h = refl
    all_indexed-of (m ∷ ms) h =
        ground
          (arith, h m (ground (arith, eq_iff m m)), all_indexed-of ms (λ b e. h b (ground arith)))

    -- the children that are left are nodes
    children_indexed :
        (st : Kahn) (done : List String) (n : String)
        → Inv st done
        → all_indexed (d.find_nodes g) (st.children n) ≡ true
    children_indexed st done n inv =
        all_indexed-of (st.children n) λ b m. closed.target n b (ground (arith, inv.children n))

    loop-cons :
        (fuel : ℕ) (n : String) (s : List String) (st : Kahn)
        → st.queue ≡ n ∷ s
        → all_indexed (d.find_nodes g) (st.children n) ≡ true
        → loop (d.find_nodes g) (suc fuel) st
          ≡ loop (d.find_nodes g) fuel (visit n (record st { queue = s }))
    unfolding loop
    loop-cons fuel n s st e indexed = rw (e, loop, indexed) refl

    loop-nil :
        (fuel : ℕ) (st : Kahn) → st.queue ≡ [] → loop (d.find_nodes g) (suc fuel) st ≡ some st
    unfolding loop
    loop-nil fuel st e = ground arith

    -- With fuel for its work the loop does not panic and ends with an empty queue.
    pub loop-queue :
        (fuel : ℕ) (st : Kahn) (done : List String)
        → Inv st done
        → work st ≤ fuel
        → (st' : Kahn) × (done' : List String) × (loop (d.find_nodes g) fuel st ≡ some st')
          × Inv st' done'
          × (st'.queue ≡ [])
    loop-queue zero st done inv h =
        (st, done, unfold loop in refl, inv, length-zero st.queue (omega arith))
    loop-queue (suc fuel) st done inv h = elim (List-cases st.queue) [
      | inl empty ↦ (st, done, loop-nil fuel st empty, inv, empty)
      | inr (n, s, e) ↦
          let inv' : Inv (record st { queue = n ∷ s }) done = rw (← e) inv in
          rw (loop-cons fuel n s st e (children_indexed st done n inv)) (
            loop-queue fuel (visit n (record st { queue = s })) (n ∷ done)
              (Inv-visit n s st done inv')
              (omega (arith, visit-work n s st done inv', ap length e)))
    ]
