-- ===== src/Controller/Events.antt =====
-- controller/events.go, and the part of handleCacheEvent in controller/controller.go that tells what
-- has changed between two states of the world.
use policy_machinery.Types.{GroupKind}
use policy_machinery.Controller.Methods.{Objects}
use policy_machinery.Controller.Cache.{Store}
use policy_machinery.Prelude.{
  String, List, Option, none, some, [], ◌∷◌, ◌++◌, lookup, put, delete, get_or, is_empty,
  if◌then◌else◌, is_absent,
}

pub data EventType : Type 0 where
  create_event update_event delete_event : EventType

-- `EventType.String`
unfoldable pub event_type_string : EventType → String
event_type_string create_event = "create"
event_type_string update_event = "update"
event_type_string delete_event = "delete"

module _ (o : Objects) where
  open o use {Object, deep_equal}

  pub record ResourceEvent : Type 0 where
    pub kind : GroupKind
    pub event_type : EventType
    pub old_object : Option Object
    pub new_object : Option Object

module _ (o : Objects) where
  open o use {Object, deep_equal}

  abbrev pub created : Object → ResourceEvent o
  created x = record {
    kind = o.group_kind x;
    event_type = create_event;
    old_object = none;
    new_object = some x;
  }

  abbrev pub updated : Object → Object → ResourceEvent o
  updated old x = record {
    kind = o.group_kind x;
    event_type = update_event;
    old_object = some old;
    new_object = some x;
  }

  abbrev pub deleted : Object → ResourceEvent o
  deleted x = record {
    kind = o.group_kind x;
    event_type = delete_event;
    old_object = some x;
    new_object = none;
  }

  -- one round of the first loop, on the entry of `newObjs`: the known objects after it, and the event
  unfoldable pub upsert : Store o → String → Object → Store o × List (ResourceEvent o)
  upsert objs uid x = elim (lookup objs uid) [
    | none ↦ (put uid x objs, created x ∷ [])
    | some old ↦ if deep_equal old x then (objs, []) else (put uid x objs, updated old x ∷ [])
  ]

  -- the first loop, over the entries of `newObjs`
  unfoldable pub upsert_all : Store o → List (String × Object) → Store o × List (ResourceEvent o)
  unfolding upsert
  upsert_all objs [] = (objs, [])
  upsert_all objs ((uid, x) ∷ entries) =
      let (objs', first) = upsert objs uid x in
      let (known, rest) = upsert_all objs' entries in (known, first ++ rest)

  -- The second loop, over the entries of `objs` as it begins: a round deletes no entry but its own.
  unfoldable pub delete_all :
      Store o → Store o → List (String × Object) → Store o × List (ResourceEvent o)
  delete_all new_objs objs [] = (objs, [])
  delete_all new_objs objs ((uid, x) ∷ entries) =
      let missing = is_absent (lookup new_objs uid) in
      let (known, rest) = delete_all new_objs (if missing then delete uid objs else objs) entries in
      (known, if missing then deleted x ∷ rest else rest)

  -- both loops
  unfoldable pub diff : Store o → Store o → Store o × List (ResourceEvent o)
  unfolding upsert_all delete_all
  diff objs new_objs =
      let (known, events) = upsert_all objs new_objs in
      let (left, deletions) = delete_all new_objs known known in (left, events ++ deletions)

-- watchable.Snapshot: what was updated, and the state of the map
pub record Snapshot (V : Type 0) : Type 0 where
  pub updates : List String
  pub state : List (String × V)

abbrev pub resource_store_id : String
resource_store_id = "resources"

module _ (o : Objects) where
  -- `handleCacheEvent`: the objects known after it, and the events that it propagates, if any
  unfoldable pub handle_cache_event :
      Snapshot (Store o) → Store o → Store o × Option (List (ResourceEvent o))
  unfolding diff
  handle_cache_event snapshot objs =
      if is_empty snapshot.updates
      then (objs, none)
      else let new_objs = get_or (lookup snapshot.state resource_store_id) [] in
        let (known, events) = diff o objs new_objs in
        (known, if is_empty events then none else some events)
