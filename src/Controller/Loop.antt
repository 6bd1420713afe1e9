-- ===== src/Controller/Loop.antt =====
-- The Controller of controller/controller.go as a state machine: the handlers that change the cache of
-- resources, and the loop that observes it. The mutex makes each handler one step; the order of the
-- steps is free.
use policy_machinery.Controller.Methods.{Objects}
use policy_machinery.Controller.Cache.{
  Store, WatchableMap, cache_list, cache_add, cache_delete, cache_replace,
}
use policy_machinery.Controller.Events.{
  ResourceEvent, Snapshot, resource_store_id, handle_cache_event,
}
use policy_machinery.Prelude.{List, Option, none, some, [], ◌∷◌, ◌++◌, ◌≡◌, put}

module _ (o : Objects) where
  -- the body of the inner loop of `Reconcile`: a nil object is passed over
  unfoldable pub list_objects : Store o → List (Option o.Object) → Store o
  list_objects store [] = store
  list_objects store (none ∷ xs) = list_objects store xs
  list_objects store (some x ∷ xs) = list_objects (put (o.get_uid x) x store) xs

  -- the loops of `Reconcile`, over what each list function returns
  unfoldable pub list_all : Store o → List (List (Option o.Object)) → Store o
  unfolding list_objects
  list_all store [] = store
  list_all store (xs ∷ lists) = list_all (list_objects store xs) lists

  -- Events that were propagated: those that the loop made of a snapshot of the cache, and those that a
  -- caller of `Propagate` gave.
  pub data Propagation : Type 0 where
    by_cache : List (ResourceEvent o) → Propagation
    by_caller : List (ResourceEvent o) → Propagation

module _ {o : Objects} where
  -- the loop propagates events only where there are some
  abbrev pub propagated_after :
      List (Propagation o) → Option (List (ResourceEvent o)) → List (Propagation o)
  propagated_after ps none = ps
  propagated_after ps (some events) = ps ++ by_cache events ∷ []

module _ (o : Objects) (w : WatchableMap (Store o)) where
  -- `Controller.add`
  unfoldable pub controller_add : w.State → o.Object → Option w.State
  unfolding cache_add
  controller_add cache x = cache_add o w cache resource_store_id x

  -- `Controller.update`
  unfoldable pub controller_update : w.State → o.Object → o.Object → Option w.State
  unfolding cache_add
  controller_update cache old x = cache_add o w cache resource_store_id x

  -- `Controller.delete`
  unfoldable pub controller_delete : w.State → o.Object → w.State
  unfolding cache_delete
  controller_delete cache x = cache_delete o w cache resource_store_id x

  -- `Controller.Reconcile`
  unfoldable pub controller_reconcile : w.State → List (List (Option o.Object)) → w.State
  unfolding list_all cache_replace
  controller_reconcile cache lists = cache_replace o w cache resource_store_id (list_all o [] lists)

  -- `LoadOrStore` of an empty store, in `subscribe`
  unfoldable pub subscribe : w.State → w.State
  subscribe cache = elim (w.load cache resource_store_id) [
    | none ↦ w.save cache resource_store_id []
    | some store ↦ cache
  ]

  -- the cache, the snapshot that the subscription delivers next, the objects that the loop of
  -- `subscribe` knows, and the events that were propagated, the oldest first
  pub record System : Type 0 where
    pub cache : w.State
    pub pending : Option (Snapshot (Store o))
    pub known : Store o
    pub propagated : List (Propagation o)

module _ (o : Objects) (w : WatchableMap (Store o)) where
  -- the snapshot that the map delivers of a change to the store of resources
  abbrev pub snapshot_of : w.State → Snapshot (Store o)
  snapshot_of cache = record {
    updates = resource_store_id ∷ [];
    state = (resource_store_id, cache_list o w cache resource_store_id) ∷ [];
  }

  -- the body of the loop of `subscribe`
  unfoldable pub observe : System o w → Snapshot (Store o) → System o w
  unfolding handle_cache_event
  observe s snapshot =
      let (known, events) = handle_cache_event o snapshot s.known in
      record s { pending = none; known = known; propagated = propagated_after s.propagated events }

  abbrev pub start : System o w
  start = record { cache = subscribe o w w.empty_map; pending = none; known = []; propagated = [] }

  -- A handler runs, or a caller propagates events, or the map takes a snapshot (in place of one that was not delivered yet), or the
  -- loop handles the snapshot.
  pub data Step (s : System o w) : System o w → Type 0 where
    add :
        (x : o.Object) (c : w.State)
        → controller_add o w s.cache x ≡ some c
        → Step s (record s { cache = c })
    update :
        (old x : o.Object) (c : w.State)
        → controller_update o w s.cache old x ≡ some c
        → Step s (record s { cache = c })
    delete : (x : o.Object) → Step s (record s { cache = controller_delete o w s.cache x })
    reconcile :
        (lists : List (List (Option o.Object)))
        → Step s (record s { cache = controller_reconcile o w s.cache lists })
    take : Step s (record s { pending = some (snapshot_of s.cache) })
    handle :
        (snapshot : Snapshot (Store o)) → s.pending ≡ some snapshot → Step s (observe s snapshot)
    -- `Controller.Propagate`, which is exported and takes whatever events its caller has
    propagate :
        (events : List (ResourceEvent o))
        → Step s (record s { propagated = s.propagated ++ by_caller events ∷ [] })

  pub data Reach : System o w → Type 0 where
    begin : Reach start
    next : {s t : System o w} → Reach s → Step s t → Reach t
