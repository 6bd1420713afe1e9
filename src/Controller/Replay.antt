-- ===== src/Controller/Replay.antt =====
-- What a subscriber learns from the events of handleCacheEvent: replaying them on the state of the world
-- before gives the state after.
use policy_machinery.Controller.Methods.{Objects, ObjectsLaws}
use policy_machinery.Controller.Cache.{Store}
use policy_machinery.Controller.Events.{ResourceEvent, upsert, upsert_all, delete_all, diff}
use policy_machinery.Controller.Entries.{
  IsUidKeyed, put-IsUidKeyed, delete-IsUidKeyed, distinct-keys-delete,
}
use policy_machinery.Controller.Diff.{distinct-upsert_all}
use policy_machinery.Prelude.{
  String, List, none, some, [], ◌∷◌, ◌++◌, true, ◌≡◌, refl, lookup, put, delete, keys, distinct,
  arith, ◌∙◌, Option-cases, ap, inl, inr, Bool-cases,
}

module _ (o : Objects) where
  -- the state of the world after an event, as a subscriber reads it from the event alone
  abbrev pub apply_event : Store o → ResourceEvent o → Store o
  apply_event s ev = elim ev.new_object [
    | some x ↦ put (o.get_uid x) x s
    | none ↦ elim ev.old_object [ some y ↦ delete (o.get_uid y) s | none ↦ s ]
  ]

  unfoldable pub replay : Store o → List (ResourceEvent o) → Store o
  replay s [] = s
  replay s (ev ∷ evs) = replay (apply_event s ev) evs

  pub replay-append :
      (s : Store o) (evs rest : List (ResourceEvent o))
      → replay s (evs ++ rest) ≡ replay (replay s evs) rest
  unfolding replay
  replay-append s [] rest = refl
  replay-append s (ev ∷ evs) rest = replay-append (apply_event s ev) evs rest

  replay-upsert :
      (objs : Store o) (uid : String) (x : o.Object)
      → o.get_uid x ≡ uid
      → replay objs (upsert o objs uid x).1 ≡ (upsert o objs uid x).0
  unfolding replay upsert
  replay-upsert objs uid x e = ground (arith, e)

  replay-upsert_all :
      (objs : Store o) (entries : List (String × o.Object))
      → IsUidKeyed o entries
      → replay objs (upsert_all o objs entries).1 ≡ (upsert_all o objs entries).0
  unfolding upsert_all
  replay-upsert_all objs [] keyed = unfold replay in refl
  replay-upsert_all objs ((uid, x) ∷ entries) keyed =
      replay-append objs (upsert o objs uid x).1 _
      ∙ ap (λ s. replay s (upsert_all o (upsert o objs uid x).0 entries).1)
          (replay-upsert objs uid x keyed.0)
      ∙ replay-upsert_all (upsert o objs uid x).0 entries keyed.1

  replay-delete_all :
      (new_objs objs : Store o) (entries : List (String × o.Object))
      → IsUidKeyed o entries
      → replay objs (delete_all o new_objs objs entries).1 ≡ (delete_all o new_objs objs entries).0
  unfolding delete_all replay
  replay-delete_all new_objs objs [] keyed = refl
  replay-delete_all new_objs objs ((uid, y) ∷ entries) keyed = ground (
    arith,
    keyed.0,
    replay-delete_all new_objs objs entries keyed.1,
    replay-delete_all new_objs (delete uid objs) entries keyed.1,
  )

  upsert-IsUidKeyed :
      (objs : Store o) (uid : String) (x : o.Object)
      → o.get_uid x ≡ uid
      → IsUidKeyed o objs
      → IsUidKeyed o (upsert o objs uid x).0
  unfolding upsert
  upsert-IsUidKeyed objs uid x e keyed = elim (Option-cases (lookup objs uid)) [
    | inl new ↦ rw (upsert, new) (put-IsUidKeyed o uid x objs e keyed)
    | inr (y, known) ↦ elim (Bool-cases (o.deep_equal y x)) [
      | inl same ↦ rw (upsert, known, same) keyed
      | inr differs ↦ rw (upsert, known, differs) (put-IsUidKeyed o uid x objs e keyed)
    ]
  ]

  upsert_all-IsUidKeyed :
      (objs : Store o) (entries : List (String × o.Object))
      → IsUidKeyed o entries
      → IsUidKeyed o objs
      → IsUidKeyed o (upsert_all o objs entries).0
  unfolding upsert_all
  upsert_all-IsUidKeyed objs [] entries_keyed keyed = keyed
  upsert_all-IsUidKeyed objs ((uid, x) ∷ entries) entries_keyed keyed =
      upsert_all-IsUidKeyed (upsert o objs uid x).0 entries entries_keyed.1
        (upsert-IsUidKeyed objs uid x entries_keyed.0 keyed)

  delete_all-keeps :
      (new_objs objs : Store o) (entries : List (String × o.Object))
      → IsUidKeyed o objs
      → distinct (keys objs) ≡ true
      → IsUidKeyed o (delete_all o new_objs objs entries).0
        × (distinct (keys (delete_all o new_objs objs entries).0) ≡ true)
  unfolding delete_all
  delete_all-keeps new_objs objs [] keyed once = (keyed, once)
  delete_all-keeps new_objs objs ((uid, y) ∷ entries) keyed once =
      elim (Option-cases (lookup new_objs uid)) [
        | inl gone ↦
            rw (delete_all, gone)
              (delete_all-keeps new_objs (delete uid objs) entries
                (delete-IsUidKeyed o uid objs keyed) (distinct-keys-delete uid objs once))
        | inr (z, there) ↦
            rw (delete_all, there) (delete_all-keeps new_objs objs entries keyed once)
      ]

  -- Where objects stand under their UIDs, replaying the events of handleCacheEvent on the objects known
  -- before gives the objects known after.
  pub replay-diff :
      (objs new_objs : Store o)
      → IsUidKeyed o objs
      → IsUidKeyed o new_objs
      → replay objs (diff o objs new_objs).1 ≡ (diff o objs new_objs).0
  unfolding diff
  replay-diff objs new_objs keyed new_keyed =
      let known = (upsert_all o objs new_objs).0 in
      replay-append objs (upsert_all o objs new_objs).1 _
      ∙ ap (λ s. replay s (delete_all o new_objs known known).1)
          (replay-upsert_all objs new_objs new_keyed)
      ∙ replay-delete_all new_objs known known (upsert_all-IsUidKeyed objs new_objs new_keyed keyed)

  -- the loops keep objects under their UIDs, and UIDs apart
  pub diff-keeps :
      ObjectsLaws o
      → (objs new_objs : Store o) → IsUidKeyed o objs
      → IsUidKeyed o new_objs
      → distinct (keys objs) ≡ true
      → IsUidKeyed o (diff o objs new_objs).0 × (distinct (keys (diff o objs new_objs).0) ≡ true)
  unfolding diff
  diff-keeps laws objs new_objs keyed new_keyed once =
      let known = (upsert_all o objs new_objs).0 in
      delete_all-keeps new_objs known known (upsert_all-IsUidKeyed objs new_objs new_keyed keyed)
        (distinct-upsert_all laws objs new_objs once)
