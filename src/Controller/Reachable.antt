-- ===== src/Controller/Reachable.antt =====
-- What holds of the Controller after every sequence of steps.
use policy_machinery.Controller.Loop.{propagate}
use policy_machinery.Controller.Invariant.{cache_events, cache_events-by_caller}
use policy_machinery.Prelude.{none}
use policy_machinery.Prelude.{
  delete as remove_entry, put, none-ne-some, some-injective, ◌∙◌, sym, ap, ◌∷◌, lookup-put, eq_refl,
  subst,
}
use policy_machinery.Controller.Methods.{Objects, ObjectsLaws}
use policy_machinery.Controller.Cache.{
  Store, WatchableMap, WatchableMapLaws, cache_list, cache_add, cache_delete, cache_replace,
}
use policy_machinery.Controller.Events.{Snapshot, resource_store_id, diff}
use policy_machinery.Controller.Loop.{
  System, Step, Reach, start, observe, snapshot_of, subscribe, controller_add, controller_update,
  controller_delete, controller_reconcile, add, update, delete, reconcile, take, handle, begin,
  next, list_all,
}
use policy_machinery.Controller.Replay.{replay, replay-append, replay-diff}
use policy_machinery.Controller.Diff.{lookup-diff}
use policy_machinery.Controller.Invariant.{
  IsSound, IsSnapshot, Inv, put-IsSound, delete-IsSound, list_all-IsSound, diff-IsSound,
  observe_lem, empty-IsSound,
}
use policy_machinery.Prelude.{String, Option, some, [], ◌≡◌, refl, get_or, lookup}

module _ {o : Objects} {w : WatchableMap (Store o)} where
  -- the state with a snapshot of its cache to be delivered
  abbrev pub take_snapshot : System o w → System o w
  take_snapshot s = record s { pending = some (snapshot_of o w s.cache) }

  -- the state once that snapshot is handled
  abbrev pub caught_up : System o w → System o w
  caught_up s = observe o w (take_snapshot s) (snapshot_of o w s.cache)

  observe-keeps :
      (s : System o w) (n : Snapshot (Store o))
      → ((observe o w s n).cache ≡ s.cache) × ((observe o w s n).pending ≡ none)
  unfolding observe
  observe-keeps s n = (refl, refl)

module _ {o : Objects} {w : WatchableMap (Store o)} (laws : ObjectsLaws o)
    (map_laws : WatchableMapLaws w) where
  -- what is saved as the store of resources is loaded
  load_saved :
      (c : w.State) (store : Store o)
      → w.load (w.save c resource_store_id store) resource_store_id ≡ some store
  load_saved c store = map_laws.load-save c resource_store_id resource_store_id store

  -- a step that saves a sound store of resources keeps the invariant
  Inv-save :
      (s : System o w) (c : w.State) (store : Store o)
      → Inv s
      → IsSound o store
      → Inv (record s { cache = w.save c resource_store_id store })
  Inv-save s c store inv sound = record {
    cached = (store, load_saved c store, sound);
    snapshot = inv.snapshot;
    known_sound = inv.known_sound;
    replayed = inv.replayed;
  }

  Inv-add :
      (s : System o w) (x : o.Object) (c : w.State)
      → Inv s
      → cache_add o w s.cache resource_store_id x ≡ some c
      → Inv (record s { cache = c })
  unfolding cache_add
  Inv-add s x c inv added =
      let (store, there, sound) = inv.cached in
      let saved : c ≡ w.save s.cache resource_store_id (put (o.get_uid x) x store) =
        some-injective (sym added ∙ rw (cache_add, there) refl) in
      rw saved (Inv-save s s.cache (put (o.get_uid x) x store) inv (put-IsSound o x store sound))

  Inv-observe :
      (s : System o w) (n : Snapshot (Store o)) → Inv s → s.pending ≡ some n → Inv (observe o w s n)
  unfolding observe
  Inv-observe s n inv delivered =
      let (store, is) = inv.snapshot n delivered in
      let (known, propagated) = observe_lem s n store is in
      record {
        cached = inv.cached;
        snapshot = λ m e. absurd (none-ne-some refl e);
        known_sound = rw known (diff-IsSound o laws s.known store inv.known_sound is.2);
        replayed =
            rw (known, propagated)
              (replay-append o [] (cache_events s.propagated) _
                ∙ ap (λ r. replay o r (diff o s.known store).1) inv.replayed
                ∙ replay-diff o s.known store inv.known_sound.keyed is.2.keyed);
      }

  Step-Inv : {s t : System o w} → Step o w s t → Inv s → Inv t
  unfolding controller_add controller_update controller_delete controller_reconcile cache_list
      cache_delete cache_replace
  Step-Inv {s} (add x c added) inv = Inv-add s x c inv added
  Step-Inv {s} (update old x c added) inv = Inv-add s x c inv added
  Step-Inv {s} (delete x) inv =
      let (store, there, sound) = inv.cached in
      let saved : controller_delete o w s.cache x
          ≡ w.save s.cache resource_store_id (remove_entry (o.get_uid x) store) =
        ap
          (λ (l : Option (Store o)).
            w.save s.cache resource_store_id (remove_entry (o.get_uid x) (get_or l [])))
          there in
      subst (λ (c : w.State). Inv (record s { cache = c })) (sym saved)
        (Inv-save s s.cache (remove_entry (o.get_uid x) store) inv
          (delete-IsSound o (o.get_uid x) store sound))
  Step-Inv {s} (reconcile lists) inv =
      Inv-save s s.cache (list_all o [] lists) inv (list_all-IsSound o [] lists (empty-IsSound o))
  Step-Inv {s} take inv =
      let (store, there, sound) = inv.cached in
      record {
        cached = inv.cached;
        snapshot = λ n e. (
          store,
          (
            ap (λ (m : Snapshot (Store o)). m.updates) (sym (some-injective e)),
            ap (λ (m : Snapshot (Store o)). m.state) (sym (some-injective e))
                ∙ ap (λ (l : Option (Store o)). (resource_store_id, get_or l []) ∷ []) there,
            sound,
          ),
        );
        known_sound = inv.known_sound;
        replayed = inv.replayed;
      }
  Step-Inv {s} (handle n delivered) inv = Inv-observe s n inv delivered
  Step-Inv {s} (propagate events) inv = record {
    cached = inv.cached;
    snapshot = inv.snapshot;
    known_sound = inv.known_sound;
    replayed = ap (replay o []) (cache_events-by_caller s.propagated events) ∙ inv.replayed;
  }

  start-Inv : Inv (start o w)
  unfolding subscribe replay
  start-Inv = record {
    cached = (
      [],
      rw (subscribe, map_laws.load-empty_map resource_store_id) (load_saved w.empty_map []),
      empty-IsSound o,
    );
    snapshot = λ n e. absurd (none-ne-some refl e);
    known_sound = empty-IsSound o;
    replayed = refl;
  }

  -- After every sequence of steps from the start: the cache has a store of resources with every object
  -- under its own UID, each UID once; so have the objects that the loop knows; and replaying every
  -- event that the loop propagated, from no objects at all, gives the objects that the loop knows,
  -- whatever events callers of Propagate had propagated in between.
  pub Reach-Inv : {s : System o w} → Reach o w s → Inv s
  Reach-Inv begin = start-Inv
  Reach-Inv (next r step) = Step-Inv step (Reach-Inv r)

  -- In every state that can be reached the map can take a snapshot of the cache, and then the loop can
  -- handle that snapshot. The two steps leave the cache as it is, and after them no snapshot is
  -- pending and the loop knows exactly the objects of the cache.
  pub Reach-catches_up :
      {s : System o w}
      → Reach o w s
      → Step o w s (take_snapshot s)
        × Step o w (take_snapshot s) (caught_up s)
        × ((caught_up s).cache ≡ s.cache)
        × ((caught_up s).pending ≡ none)
        × ((uid : String)
            → lookup (caught_up s).known uid
              ≡ lookup (cache_list o w s.cache resource_store_id) uid)
  unfolding cache_list
  Reach-catches_up {s} r =
      let (store, there, sound) = (Reach-Inv r).cached in
      let is : IsSnapshot o (snapshot_of o w s.cache) store = (refl, rw there refl, sound) in
      let (known, _) = observe_lem (take_snapshot s) (snapshot_of o w s.cache) store is in
      let (kept, done) = observe-keeps (take_snapshot s) (snapshot_of o w s.cache) in
      (
        take,
        handle (snapshot_of o w s.cache) refl,
        kept,
        done,
        λ uid. rw (known, there) (lookup-diff laws s.known store uid sound.once),
      )

  -- In every state that can be reached an object can be added: the store of resources is there.
  pub Reach-add_returns :
      {s : System o w} (x : o.Object)
      → Reach o w s
      → (c : w.State) × (controller_add o w s.cache x ≡ some c)
        × (lookup (cache_list o w c resource_store_id) (o.get_uid x) ≡ some x)
  unfolding controller_add cache_add cache_list
  Reach-add_returns {s} x r =
      let (store, there, sound) = (Reach-Inv r).cached in
      let saved = w.save s.cache resource_store_id (put (o.get_uid x) x store) in
      (
        saved,
        rw (cache_add, there) refl,
        rw (load_saved s.cache (put (o.get_uid x) x store))
            (lookup-put (o.get_uid x) (o.get_uid x) x store ∙ rw (eq_refl (o.get_uid x)) refl),
      )
