-- ===== src/Controller/Diff.antt =====
-- handleCacheEvent: what the two loops leave behind, of controller/controller.go.
use policy_machinery.Controller.Methods.{Objects, ObjectsLaws}
use policy_machinery.Controller.Cache.{Store}
use policy_machinery.Controller.Events.{upsert, upsert_all, delete_all, diff}
use policy_machinery.Controller.Entries.{lookup-none_of_distinct}
use policy_machinery.Prelude.{
  String, List, none, some, [], ◌∷◌, true, ◌≡◌, refl, lookup, delete, keys, contains, distinct,
  if◌then◌else◌, arith, ◌∙◌, ◌==◌, eq_iff, ◌&&◌, Option-cases, is_absent, lookup-delete, inl,
  lookup-put, inr, Bool-cases, distinct-keys-put,
}

module _ {o : Objects} (laws : ObjectsLaws o) where
  pub lookup-upsert :
      (objs : Store o) (uid k : String) (x : o.Object)
      → lookup (upsert o objs uid x).0 k ≡ (if uid == k then some x else lookup objs k)
  unfolding upsert
  lookup-upsert objs uid k x = elim (Option-cases (lookup objs uid)) [
    | inl new ↦ rw (upsert, new) (lookup-put uid k x objs)
    | inr (y, known) ↦ elim (Bool-cases (o.deep_equal y x)) [
      | inl same ↦
          rw (upsert, known, same)
            (ground (arith, known, eq_iff uid k, (laws.deep_equal_iff y x).0 same))
      | inr differs ↦ rw (upsert, known, differs) (lookup-put uid k x objs)
    ]
  ]

  -- after the first loop a key has its new object, if there is one, and its old one otherwise
  pub lookup-upsert_all :
      (objs : Store o) (entries : List (String × o.Object)) (k : String)
      → distinct (keys entries) ≡ true
      → lookup (upsert_all o objs entries).0 k
        ≡ (elim (lookup entries k) [ none ↦ lookup objs k | some x ↦ some x ])
  unfolding upsert_all
  lookup-upsert_all objs [] k once = refl
  lookup-upsert_all objs ((uid, x) ∷ entries) k once =
      lookup-upsert_all (upsert o objs uid x).0 entries k (ground (arith, once))
      ∙ ground
          (arith, once, lookup-upsert objs uid k x, eq_iff uid k, lookup-none_of_distinct k entries)

  distinct-upsert :
      (objs : Store o) (uid : String) (x : o.Object)
      → distinct (keys objs) ≡ true
      → distinct (keys (upsert o objs uid x).0) ≡ true
  unfolding upsert
  distinct-upsert objs uid x once = ground (arith, distinct-keys-put uid x objs once)

  pub distinct-upsert_all :
      (objs : Store o) (entries : List (String × o.Object))
      → distinct (keys objs) ≡ true
      → distinct (keys (upsert_all o objs entries).0) ≡ true
  unfolding upsert_all
  distinct-upsert_all objs [] once = once
  distinct-upsert_all objs ((uid, x) ∷ entries) once =
      distinct-upsert_all (upsert o objs uid x).0 entries (distinct-upsert objs uid x once)

  -- after the second loop the keys that it ran through and that the new state lacks are gone
  pub lookup-delete_all :
      (new_objs objs : Store o) (entries : List (String × o.Object)) (k : String)
      → lookup (delete_all o new_objs objs entries).0 k ≡ (
          if contains (keys entries) k && is_absent (lookup new_objs k)
          then none
          else lookup objs k)
  unfolding delete_all
  lookup-delete_all new_objs objs [] k = refl
  lookup-delete_all new_objs objs ((uid, x) ∷ entries) k =
      lookup-delete_all new_objs (if is_absent (lookup new_objs uid) then delete uid objs else objs)
        entries k
      ∙ ground (arith, lookup-delete uid k objs, eq_iff uid k)

  -- Where each UID stands once in the new state, the objects known after handleCacheEvent's loops are,
  -- under every UID, those of the new state.
  pub lookup-diff :
      (objs new_objs : Store o) (k : String)
      → distinct (keys new_objs) ≡ true
      → lookup (diff o objs new_objs).0 k ≡ lookup new_objs k
  unfolding diff
  lookup-diff objs new_objs k once =
      let known = (upsert_all o objs new_objs).0 in
      lookup-delete_all new_objs known known k
      ∙ ground (arith, lookup-upsert_all objs new_objs k once, lookup-none_of_distinct k known)
