-- ===== src/Controller/Invariant.antt =====
-- What holds of the Controller after every sequence of steps.
use policy_machinery.Controller.Loop.{propagated_after}
use policy_machinery.Prelude.{◌∙◌}
use policy_machinery.Controller.Loop.{Propagation, by_cache, by_caller}
use policy_machinery.Prelude.{append-nil, append_assoc, ap, sym, ◌∙◌}
use policy_machinery.Controller.Methods.{Objects, ObjectsLaws}
use policy_machinery.Controller.Cache.{Store, WatchableMap}
use policy_machinery.Controller.Events.{
  Snapshot, resource_store_id, handle_cache_event, diff, ResourceEvent,
}
use policy_machinery.Controller.Loop.{System, observe, list_objects, list_all}
use policy_machinery.Controller.Entries.{
  IsUidKeyed, put-IsUidKeyed, delete-IsUidKeyed, distinct-keys-delete,
}
use policy_machinery.Controller.Replay.{replay, diff-keeps}
use policy_machinery.Prelude.{
  delete as remove_entry, put, if◌then◌else◌, distinct-keys-put, is_empty,
}
use policy_machinery.Prelude.{
  String, List, Option, none, some, [], ◌∷◌, ◌++◌, ◌≡◌, refl, distinct, keys, lookup, true,
}

module _ (o : Objects) where
  -- objects stand under their UIDs, each once
  pub record IsSound (s : Store o) : Type 0 where
    pub keyed : IsUidKeyed o s
    pub once : distinct (keys s) ≡ true

  pub empty-IsSound : IsSound []
  empty-IsSound = record { keyed = tt; once = refl }

  pub put-IsSound : (x : o.Object) (s : Store o) → IsSound s → IsSound (put (o.get_uid x) x s)
  put-IsSound x s sound = record {
    keyed = put-IsUidKeyed o (o.get_uid x) x s refl sound.keyed;
    once = distinct-keys-put (o.get_uid x) x s sound.once;
  }

  pub delete-IsSound : (uid : String) (s : Store o) → IsSound s → IsSound (remove_entry uid s)
  delete-IsSound uid s sound = record {
    keyed = delete-IsUidKeyed o uid s sound.keyed;
    once = distinct-keys-delete uid s sound.once;
  }

  list_objects-IsSound :
      (s : Store o) (xs : List (Option o.Object)) → IsSound s → IsSound (list_objects o s xs)
  unfolding list_objects
  list_objects-IsSound s [] sound = sound
  list_objects-IsSound s (none ∷ xs) sound = list_objects-IsSound s xs sound
  list_objects-IsSound s (some x ∷ xs) sound =
      list_objects-IsSound (put (o.get_uid x) x s) xs (put-IsSound x s sound)

  pub list_all-IsSound :
      (s : Store o) (lists : List (List (Option o.Object)))
      → IsSound s
      → IsSound (list_all o s lists)
  unfolding list_all
  list_all-IsSound s [] sound = sound
  list_all-IsSound s (xs ∷ lists) sound =
      list_all-IsSound (list_objects o s xs) lists (list_objects-IsSound s xs sound)

  pub diff-IsSound :
      ObjectsLaws o
      → (objs new_objs : Store o) → IsSound objs
      → IsSound new_objs
      → IsSound (diff o objs new_objs).0
  diff-IsSound laws objs new_objs sound new_sound =
      let (keyed, once) = diff-keeps o laws objs new_objs sound.keyed new_sound.keyed sound.once in
      record { keyed = keyed; once = once }

  -- the snapshot of a sound store of resources
  abbrev pub IsSnapshot : Snapshot (Store o) → Store o → Type 0
  IsSnapshot snapshot store =
      (snapshot.updates ≡ resource_store_id ∷ [])
      × (snapshot.state ≡ (resource_store_id, store) ∷ [])
      × IsSound store

module _ {o : Objects} where
  -- the events that the loop made of the cache, in order
  abbrev pub cache_events : List (Propagation o) → List (ResourceEvent o)
  cache_events [] = []
  cache_events (by_cache events ∷ ps) = events ++ cache_events ps
  cache_events (by_caller events ∷ ps) = cache_events ps

  pub cache_events-by_cache :
      (ps : List (Propagation o)) (events : List (ResourceEvent o))
      → cache_events (ps ++ by_cache events ∷ []) ≡ cache_events ps ++ events
  cache_events-by_cache [] events = append-nil events
  cache_events-by_cache (by_cache made ∷ ps) events =
      ap (λ es. made ++ es) (cache_events-by_cache ps events)
      ∙ sym (append_assoc made (cache_events ps) events)
  cache_events-by_cache (by_caller given ∷ ps) events = cache_events-by_cache ps events

  pub cache_events-by_caller :
      (ps : List (Propagation o)) (events : List (ResourceEvent o))
      → cache_events (ps ++ by_caller events ∷ []) ≡ cache_events ps
  cache_events-by_caller [] events = refl
  cache_events-by_caller (by_cache made ∷ ps) events =
      ap (λ es. made ++ es) (cache_events-by_caller ps events)
  cache_events-by_caller (by_caller given ∷ ps) events = cache_events-by_caller ps events

  pub cache_events-propagated_after :
      (ps : List (Propagation o)) (events : List (ResourceEvent o))
      → cache_events (propagated_after ps (if is_empty events then none else some events))
        ≡ cache_events ps ++ events
  cache_events-propagated_after ps [] = sym (append-nil (cache_events ps))
  cache_events-propagated_after ps (ev ∷ events) = cache_events-by_cache ps (ev ∷ events)

module _ {o : Objects} {w : WatchableMap (Store o)} where
  -- The store of resources is there and sound, so is a pending snapshot, and so are the known objects;
  -- and the events that the loop propagated so far, replayed, give the known objects.
  pub record Inv (s : System o w) : Type 0 where
    pub cached :
        (store : Store o) × (w.load s.cache resource_store_id ≡ some store) × IsSound o store
    pub snapshot :
        (n : Snapshot (Store o)) → s.pending ≡ some n → (store : Store o) × IsSnapshot o n store
    pub known_sound : IsSound o s.known
    pub replayed : replay o [] (cache_events s.propagated) ≡ s.known

  observed :
      (s : System o w) (n : Snapshot (Store o)) (known : Store o) (events : List (ResourceEvent o))
      → handle_cache_event o n s.known ≡ (known, if is_empty events then none else some events)
      → ((observe o w s n).known ≡ known)
        × (cache_events (observe o w s n).propagated ≡ cache_events s.propagated ++ events)
  unfolding observe
  observed s n known events e = (
    ap (λ (r : Store o × Option (List (ResourceEvent o))). r.0) e,
    ap
          (λ (r : Store o × Option (List (ResourceEvent o))).
            cache_events (propagated_after s.propagated r.1))
          e
        ∙ cache_events-propagated_after s.propagated events,
  )

  pub observe_lem :
      (s : System o w) (n : Snapshot (Store o)) (store : Store o)
      → IsSnapshot o n store
      → ((observe o w s n).known ≡ (diff o s.known store).0)
        × (cache_events (observe o w s n).propagated
            ≡ cache_events s.propagated ++ (diff o s.known store).1)
  unfolding handle_cache_event
  observe_lem s n store (updated, stored, _) =
      let e : lookup n.state resource_store_id ≡ some store = rw stored refl in
      observed s n (diff o s.known store).0 (diff o s.known store).1
        (rw (handle_cache_event, updated, e) refl)
