-- ===== src/Controller/Cache.antt =====
-- controller/cache.go: the store of resources by UID, and the cache of stores.
use policy_machinery.Types.{GroupKind, same_kind}
use policy_machinery.Controller.Methods.{Objects}
use policy_machinery.Prelude.{
  String, Bool, List, Option, none, some, [], ◌∷◌, ◌&&◌, true, false, ◌≡◌, filter, keys, values,
  lookup, put, delete, length, same_number, get_or, if◌then◌else◌, ◌==◌,
}

-- lo.EveryBy
abbrev pub every_by : {A : Type 0} → List A → (A → Bool) → Bool
every_by [] p = true
every_by (x ∷ xs) p = p x && every_by xs p

module _ (o : Objects) where
  open o use {Object, get_uid, deep_copy_object, deep_equal}

  abbrev pub Store : Type 0
  Store = List (String × Object)

  -- `Store.Filter`
  unfoldable pub store_filter : Store → List (Object → Bool) → List Object
  store_filter s predicates = filter (λ object. every_by predicates (λ p. p object)) (values s)

  unfoldable pub filter_by_group_kind : Store → GroupKind → List Object
  unfolding store_filter
  filter_by_group_kind s gk = store_filter s ((λ x. same_kind (o.group_kind x) gk) ∷ [])

  -- `Store.DeepCopy`
  unfoldable pub store_deep_copy : Store → Store
  store_deep_copy [] = []
  store_deep_copy ((uid, x) ∷ s) = (uid, deep_copy_object x) ∷ store_deep_copy s

  -- one round of `Store.Equal`
  abbrev pub entry_equal : Store → Store → String → Bool
  entry_equal s other uid = elim (lookup other uid) [
    | none ↦ false
    | some y ↦ elim (lookup s uid) [ none ↦ false | some x ↦ deep_equal x y ]
  ]

  unfoldable pub store_equal : Store → Store → Bool
  store_equal s other =
      same_number (length s) (length other) && every_by (keys s) (entry_equal s other)

-- watchable.Map, which CacheStore embeds, from strings to stores: its state and what the cache calls.
-- The locks make each call one step.
pub record WatchableMap (V : Type 0) : Type 1 where
  pub State : Type 0
  pub empty_map : State
  pub load : State → String → Option V
  pub save : State → String → V → State

pub record WatchableMapLaws {V : Type 0} (w : WatchableMap V) : Type 0 where
  pub load-empty_map : (k : String) → w.load w.empty_map k ≡ none
  pub load-save :
      (m : w.State) (k j : String) (v : V)
      → w.load (w.save m k v) j ≡ (if k == j then some v else w.load m j)

module _ (o : Objects) (w : WatchableMap (Store o)) where
  -- `CacheStore.List`: a missing store is nil, which reads as an empty one
  unfoldable pub cache_list : w.State → String → Store o
  cache_list c store_id = get_or (w.load c store_id) []

  -- `CacheStore.Add`: a missing store is nil, and the write to it panics
  unfoldable pub cache_add : w.State → String → o.Object → Option w.State
  cache_add c store_id x = elim (w.load c store_id) [
    | none ↦ none
    | some store ↦ some (w.save c store_id (put (o.get_uid x) x store))
  ]

  -- `CacheStore.Delete`: deleting from nil does nothing, and nil is stored
  unfoldable pub cache_delete : w.State → String → o.Object → w.State
  cache_delete c store_id x =
      w.save c store_id (delete (o.get_uid x) (get_or (w.load c store_id) []))

  -- `CacheStore.Replace`
  unfoldable pub cache_replace : w.State → String → Store o → w.State
  cache_replace c store_id store = w.save c store_id store
