-- ===== src/Controller/Changes.antt =====
-- handleCacheEvent: which events the two loops make, of controller/controller.go.
use mathlib.Core.List.Memᴰ
use policy_machinery.Controller.Methods.{Objects, ObjectsLaws}
use policy_machinery.Controller.Cache.{Store}
use policy_machinery.Controller.Events.{
  ResourceEvent, created, updated, deleted, upsert, upsert_all, delete_all, diff,
}
use policy_machinery.Controller.Entries.{mem_keys, lookup_iff_mem}
use policy_machinery.Controller.Diff.{lookup-upsert, lookup-upsert_all, distinct-upsert_all}
use policy_machinery.Prelude.{
  String, List, Option, none, some, [], ◌∷◌, true, ◌≡◌, refl, lookup, keys, distinct, Memᴰ, ◌≢◌,
  ⊎_elim, ◌↔◌, Option-cases, ◌∙◌, arith, inl, contains_of_mem, delete, inr, Bool-cases, eq_iff, ap,
  subst, sym, mem_singleton, true-ne-false, ◌++◌,
}

module _ {o : Objects} where
  -- the event that an object of the new state makes, where the key had that object or none
  abbrev Upserted : Option o.Object → o.Object → ResourceEvent o → Type 0
  Upserted none x ev = ev ≡ created o x
  Upserted (some y) x ev = (y ≢ x) × (ev ≡ updated o y x)

module _ {o : Objects} (laws : ObjectsLaws o) where
  upsert_event :
      (objs : Store o) (uid : String) (x : o.Object) (ev : ResourceEvent o)
      → Memᴰ ev (upsert o objs uid x).1 ↔ Upserted (lookup objs uid) x ev
  unfolding upsert
  upsert_event objs uid x ev = elim (Option-cases (lookup objs uid)) [
    | inl new ↦ rw (upsert, new) (λ m. mem_singleton m, λ e. Memᴰ.head e)
    | inr (y, known) ↦ elim (Bool-cases (o.deep_equal y x)) [
      | inl same ↦
          rw (upsert, known, same)
            (
              λ m. absurd (Memᴰ.not-nil m),
              λ (ne, e). absurd (ne ((laws.deep_equal_iff y x).0 same)),
            )
      | inr differs ↦
          rw (upsert, known, differs)
            (
              λ m. (λ e. true-ne-false ((laws.deep_equal_iff y x).1 e) differs, mem_singleton m),
              λ (ne, e). Memᴰ.head e,
            )
    ]
  ]

  upsert_events :
      (objs : Store o) (entries : List (String × o.Object)) (ev : ResourceEvent o)
      → distinct (keys entries) ≡ true
      → Memᴰ ev (upsert_all o objs entries).1 ↔ (
          (uid : String) × (x : o.Object) × Memᴰ (uid, x) entries × Upserted (lookup objs uid) x ev)
  unfolding upsert_all
  upsert_events objs [] ev once =
      (λ m. absurd (Memᴰ.not-nil m), λ (uid, x, m, up). absurd (Memᴰ.not-nil m))
  upsert_events objs ((j, y) ∷ entries) ev once =
      let objs' = (upsert o objs j y).0 in
      let ih = upsert_events objs' entries ev (ground (arith, once)) in
      (
        λ m.
            ⊎_elim (λ first. (j, y, Memᴰ.head refl, (upsert_event objs j y ev).0 first))
              (λ later.
                let (uid, x, n, up) = ih.0 later in
                (uid, x, Memᴰ.tail n, subst (λ z. Upserted z x ev) (untouched uid x n) up))
              (Memᴰ.append_cases (upsert o objs j y).1 m),
        λ (uid, x, n, up).
            ⊎_elim
              (λ here. Memᴰ.append_left _ (
                (upsert_event objs j y ev).1
                  (subst (λ (e : String × o.Object). Upserted (lookup objs e.0) e.1 ev) here up)))
              (λ later. Memᴰ.append_right (upsert o objs j y).1 (
                ih.1
                  (uid, x, later, subst (λ z. Upserted z x ev) (sym (untouched uid x later)) up)))
              (Memᴰ.cases_cons n),
      )
    where
      untouched :
          (uid : String) (x : o.Object)
          → Memᴰ (uid, x) entries
          → lookup (upsert o objs j y).0 uid ≡ lookup objs uid
      untouched uid x n =
          lookup-upsert laws objs j uid y
          ∙ ground
              (arith, once, contains_of_mem (keys entries) uid (mem_keys entries n), eq_iff j uid)

  delete_events :
      (new_objs objs : Store o) (entries : List (String × o.Object)) (ev : ResourceEvent o)
      → Memᴰ ev (delete_all o new_objs objs entries).1 ↔ (
          (uid : String) × (x : o.Object) × Memᴰ (uid, x) entries
          × (lookup new_objs uid ≡ none)
          × (ev ≡ deleted o x))
  unfolding delete_all
  delete_events new_objs objs [] ev =
      (λ m. absurd (Memᴰ.not-nil m), λ (uid, x, m, _, _). absurd (Memᴰ.not-nil m))
  delete_events new_objs objs ((j, y) ∷ entries) ev = elim (Option-cases (lookup new_objs j)) [
    | inl gone ↦
        let ih = delete_events new_objs (delete j objs) entries ev in
        rw (delete_all, gone)
          (
            λ m.
                ⊎_elim (λ e. (j, y, Memᴰ.head refl, gone, e))
                  (λ later. let (uid, x, n, g, e) = ih.0 later in (uid, x, Memᴰ.tail n, g, e))
                  (Memᴰ.cases_cons m),
            λ (uid, x, n, g, e).
                ⊎_elim (λ here. Memᴰ.head (e ∙ ap (λ (p : String × o.Object). deleted o p.1) here))
                  (λ later. Memᴰ.tail (ih.1 (uid, x, later, g, e))) (Memᴰ.cases_cons n),
          )
    | inr (z, there) ↦
        let ih = delete_events new_objs objs entries ev in
        rw (delete_all, there)
          (
            λ m. let (uid, x, n, g, e) = ih.0 m in (uid, x, Memᴰ.tail n, g, e),
            λ (uid, x, n, g, e).
                ⊎_elim
                  (λ here. absurd (
                    missing (
                      sym there
                      ∙ ap (λ (p : String × o.Object). lookup new_objs p.0) (sym here)
                      ∙ g)))
                  (λ later. ih.1 (uid, x, later, g, e)) (Memᴰ.cases_cons n),
          )
  ]
    where
      missing : {z : o.Object} → ◌≡◌ {A = Option o.Object} (some z) none → ⊥
      missing e = cc

module _ {o : Objects} where
  -- what changed under a UID from one state of the world to the next, and the event that tells it
  pub data Change (objs new_objs : Store o) (ev : ResourceEvent o) : Type 0 where
    appeared :
        (uid : String) (x : o.Object)
        → lookup objs uid ≡ none
        → lookup new_objs uid ≡ some x
        → ev ≡ created o x
        → Change objs new_objs ev
    changed :
        (uid : String) (y x : o.Object)
        → lookup objs uid ≡ some y
        → lookup new_objs uid ≡ some x
        → y ≢ x
        → ev ≡ updated o y x
        → Change objs new_objs ev
    vanished :
        (uid : String) (y : o.Object)
        → lookup objs uid ≡ some y
        → lookup new_objs uid ≡ none
        → ev ≡ deleted o y
        → Change objs new_objs ev

module _ {o : Objects} (laws : ObjectsLaws o) (objs new_objs : Store o)
    (once : distinct (keys objs) ≡ true) (once' : distinct (keys new_objs) ≡ true) where
  Change-of_upsert :
      (uid : String) (x : o.Object) (ev : ResourceEvent o)
      → lookup new_objs uid ≡ some x
      → Upserted (lookup objs uid) x ev
      → Change objs new_objs ev
  Change-of_upsert uid x ev there up = elim (Option-cases (lookup objs uid)) [
    | inl new ↦ appeared uid x new there (rw new at up)
    | inr (y, known) ↦ let (ne, e) = rw known at up in changed uid y x known there ne e
  ]

  -- Between two states of the world, in each of which every UID stands once, the events that
  -- handleCacheEvent makes are exactly those of the changes: an object that appeared under a UID, one
  -- that is not deeply equal to the one before it, and one that is gone.
  pub diff_events :
      (ev : ResourceEvent o) → Memᴰ ev (diff o objs new_objs).1 ↔ Change objs new_objs ev
  unfolding diff
  diff_events ev =
      let known = (upsert_all o objs new_objs).0 in
      let known_once = distinct-upsert_all laws objs new_objs once in
      let ups = upsert_events laws objs new_objs ev once' in
      let dels = delete_events laws new_objs known known ev in
      (
        λ m.
            ⊎_elim
              (λ up.
                let (uid, x, n, u) = ups.0 up in
                Change-of_upsert uid x ev ((lookup_iff_mem new_objs uid x once').1 n) u)
              (λ del.
                let (uid, y, n, gone, e) = dels.0 del in
                vanished uid y (kept uid y gone ((lookup_iff_mem known uid y known_once).1 n)) gone
                  e)
              (Memᴰ.append_cases (upsert_all o objs new_objs).1 m),
        told known_once,
      )
    where
      kept :
          (uid : String) (y : o.Object)
          → lookup new_objs uid ≡ none
          → lookup (upsert_all o objs new_objs).0 uid ≡ some y
          → lookup objs uid ≡ some y
      kept uid y gone there =
          ground (arith, gone, there, lookup-upsert_all laws objs new_objs uid once')

      kept_back :
          (uid : String) (y : o.Object)
          → lookup new_objs uid ≡ none
          → lookup objs uid ≡ some y
          → lookup (upsert_all o objs new_objs).0 uid ≡ some y
      kept_back uid y gone there =
          ground (arith, gone, there, lookup-upsert_all laws objs new_objs uid once')

      told :
          distinct (keys (upsert_all o objs new_objs).0) ≡ true
          → Change objs new_objs ev
          → Memᴰ ev (
              (upsert_all o objs new_objs).1
              ++ (delete_all o new_objs
                  (upsert_all o objs new_objs).0
                  (upsert_all o objs new_objs).0).1)
      told known_once (appeared uid x new there e) = Memᴰ.append_left _ (
          (upsert_events laws objs new_objs ev once').1
            (uid, x, (lookup_iff_mem new_objs uid x once').0 there, rw new e))
      told known_once (changed uid y x known there ne e) = Memᴰ.append_left _ (
          (upsert_events laws objs new_objs ev once').1
            (uid, x, (lookup_iff_mem new_objs uid x once').0 there, rw known (ne, e)))
      told known_once (vanished uid y known gone e) =
          Memᴰ.append_right (upsert_all o objs new_objs).1 (
            (delete_events laws new_objs (upsert_all o objs new_objs).0
                (upsert_all o objs new_objs).0 ev).1
              (
                uid,
                y,
                (lookup_iff_mem (upsert_all o objs new_objs).0 uid y known_once).0
                    (kept_back uid y gone known),
                gone,
                e,
              ))
