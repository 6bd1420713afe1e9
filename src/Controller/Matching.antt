-- ===== src/Controller/Matching.antt =====
-- controller/subscriber.go: which events a subscription passes on.

use policy_machinery.Controller.Workflows.{Context}
use policy_machinery.Controller.Methods.{Objects, ObjectsLaws}
use policy_machinery.Controller.Events.{
  create_event, update_event, delete_event, ResourceEvent, EventType, diff,
}
use policy_machinery.Prelude.{
  ◌≡◌, some, Bool, none, ◌≢◌, true, refl, ◌↔◌, Option, String, ◌&&◌, arith, none-ne-some, ◌==◌,
  Bool-cases, sym, ◌||◌, inl, some-injective, eq_iff, ◌∙◌, inr, true-ne-false, List, Memᴰ,
  contains_by, get_or, contains_by_iff, ◌∷◌, false, subst, filter, [], distinct, keys,
}
use policy_machinery.Controller.Subscriber.{
  ResourceEventMatcher, object_of, matcher_matches, same_event_type, some_matches, matching_events,
  Subscription, subscription_reconcile,
}
use policy_machinery.Types.{GroupKind, same_kind, same_kind_iff}
use policy_machinery.Controller.Workflows.{ReconcileFunc, Fault}
use policy_machinery.Controller.Cache.{Store}
use policy_machinery.Controller.Changes.{Change, appeared, changed, vanished, diff_events}

kind_fits : Option GroupKind → GroupKind → Bool
kind_fits none k = true
kind_fits (some j) k = same_kind j k

type_fits : Option EventType → EventType → Bool
type_fits none t = true
type_fits (some u) t = same_event_type u t

kind_fits_iff :
    (j : Option GroupKind) (k : GroupKind)
    → (kind_fits j k ≡ true) ↔ ((i : GroupKind) → j ≡ some i → i ≡ k)
unfolding kind_fits
kind_fits_iff none k = (λ h i e. absurd (none-ne-some refl e), λ h. refl)
kind_fits_iff (some j) k = (
  λ h i e. sym (some-injective e) ∙ (same_kind_iff j k).0 h,
  λ h. (same_kind_iff j k).1 (h j refl),
)

same_event_type_iff : (t u : EventType) → (same_event_type t u ≡ true) ↔ (t ≡ u)
same_event_type_iff create_event create_event = (λ h. refl, λ h. refl)
same_event_type_iff update_event update_event = (λ h. refl, λ h. refl)
same_event_type_iff delete_event delete_event = (λ h. refl, λ h. refl)
same_event_type_iff create_event update_event = (λ h. cc, λ h. cc)
same_event_type_iff create_event delete_event = (λ h. cc, λ h. cc)
same_event_type_iff update_event create_event = (λ h. cc, λ h. cc)
same_event_type_iff update_event delete_event = (λ h. cc, λ h. cc)
same_event_type_iff delete_event create_event = (λ h. cc, λ h. cc)
same_event_type_iff delete_event update_event = (λ h. cc, λ h. cc)

type_fits_iff :
    (u : Option EventType) (t : EventType)
    → (type_fits u t ≡ true) ↔ ((i : EventType) → u ≡ some i → i ≡ t)
unfolding type_fits
type_fits_iff none t = (λ h i e. absurd (none-ne-some refl e), λ h. refl)
type_fits_iff (some u) t = (
  λ h i e. sym (some-injective e) ∙ (same_event_type_iff u t).0 h,
  λ h. (same_event_type_iff u t).1 (h u refl),
)

text_fits : String → String → Bool
text_fits text name = text == "" || text == name

text_fits_iff : (text name : String) → (text_fits text name ≡ true) ↔ (text ≢ "" → text ≡ name)
unfolding text_fits
text_fits_iff text name = elim (Bool-cases (text == "")) [
  | inl any ↦ rw any (λ h ne. absurd (ne ((eq_iff text "").0 any)), λ h. refl)
  | inr fixed ↦ rw fixed (
    λ h ne. (eq_iff text name).0 h,
    λ h. (eq_iff text name).1 (h (λ e. true-ne-false ((eq_iff text "").1 e) fixed)),
  )
]

module _ {o : Objects} where
  -- the object of an event: the old one where there is one, and the new one otherwise
  pub data About (ev : ResourceEvent o) (x : o.Object) : Type 0 where
    old : ev.old_object ≡ some x → About ev x
    new : ev.old_object ≡ none → ev.new_object ≡ some x → About ev x

  -- an event that has an object, as every event of handleCacheEvent has
  abbrev pub HasObject : ResourceEvent o → Type 0
  HasObject ev = (x : o.Object) × About ev x

  -- each field of a matcher that is set is that of the event
  pub record Matches (ev : ResourceEvent o) (x : o.Object) (m : ResourceEventMatcher) : Type 0 where
    pub of_kind : (k : GroupKind) → m.kind ≡ some k → k ≡ ev.kind
    pub of_type : (t : EventType) → m.event_type ≡ some t → t ≡ ev.event_type
    pub in_namespace : m.object_namespace ≢ "" → m.object_namespace ≡ o.get_namespace x
    pub named : m.object_name ≢ "" → m.object_name ≡ o.get_name x

  object_of-About : (ev : ResourceEvent o) (x : o.Object) → About ev x → object_of ev ≡ some x
  object_of-About ev x (old e) = rw (object_of, e) refl
  object_of-About ev x (new e e') = rw (object_of, e) e'

  -- the test of a matcher on an event that has an object
  fits : ResourceEvent o → o.Object → ResourceEventMatcher → Bool
  fits ev x m =
      kind_fits m.kind ev.kind
      && type_fits m.event_type ev.event_type
      && text_fits m.object_namespace (o.get_namespace x)
      && text_fits m.object_name (o.get_name x)

  matcher_matches-fits :
      (ev : ResourceEvent o) (x : o.Object) (m : ResourceEventMatcher)
      → About ev x
      → matcher_matches ev m ≡ some (fits ev x m)
  unfolding matcher_matches fits kind_fits type_fits text_fits
  matcher_matches-fits ev x m about = ground (arith, object_of-About ev x about)

  fits_iff :
      (ev : ResourceEvent o) (x : o.Object) (m : ResourceEventMatcher)
      → (fits ev x m ≡ true) ↔ Matches ev x m
  unfolding fits
  fits_iff ev x m = (
    λ h. record {
      of_kind = (kind_fits_iff m.kind ev.kind).0 (ground arith);
      of_type = (type_fits_iff m.event_type ev.event_type).0 (ground arith);
      in_namespace = (text_fits_iff m.object_namespace (o.get_namespace x)).0 (ground arith);
      named = (text_fits_iff m.object_name (o.get_name x)).0 (ground arith);
    },
    λ n.
        let a = (kind_fits_iff m.kind ev.kind).1 n.of_kind in
        let b = (type_fits_iff m.event_type ev.event_type).1 n.of_type in
        let c = (text_fits_iff m.object_namespace (o.get_namespace x)).1 n.in_namespace in
        let d = (text_fits_iff m.object_name (o.get_name x)).1 n.named in ground arith,
  )

  -- an event that has an object, and a matcher that it fits
  abbrev pub Wanted : List ResourceEventMatcher → ResourceEvent o → Type 0
  Wanted ms ev =
      (x : o.Object) × About ev x × (m : ResourceEventMatcher) × Memᴰ m ms × Matches ev x m

  some_matches-contains_by :
      (ev : ResourceEvent o) (x : o.Object) (ms : List ResourceEventMatcher)
      → About ev x
      → some_matches ev ms ≡ some (contains_by ms (fits ev x))
  unfolding some_matches
  some_matches-contains_by ev x [] about = refl
  some_matches-contains_by ev x (m ∷ ms) about =
      ground (arith, matcher_matches-fits ev x m about, some_matches-contains_by ev x ms about)

  -- the filter of a subscription, as a test that does not panic
  pub wants : List ResourceEventMatcher → ResourceEvent o → Bool
  wants ms ev = get_or (some_matches ev ms) false

  About-unique : (ev : ResourceEvent o) (x y : o.Object) → About ev x → About ev y → x ≡ y
  About-unique ev x y a b = some-injective (sym (object_of-About ev x a) ∙ object_of-About ev y b)

  wants_iff :
      (ms : List ResourceEventMatcher) (ev : ResourceEvent o)
      → HasObject ev
      → (wants ms ev ≡ true) ↔ Wanted ms ev
  unfolding wants
  wants_iff ms ev (x, about) =
      let iff = contains_by_iff ms (fits ev x) in
      rw (some_matches-contains_by ev x ms about) (
        λ h. let (m, there, fit) = iff.0 h in (x, about, m, there, (fits_iff ev x m).0 fit),
        λ (y, about', m, there, n). iff.1 (
          m,
          there,
          (fits_iff ev x m).1 (subst (λ z. Matches ev z m) (About-unique ev y x about' about) n),
        ),
      )

  matching_events-filter :
      (ms : List ResourceEventMatcher) (evs : List (ResourceEvent o))
      → ((ev : ResourceEvent o) → Memᴰ ev evs → HasObject ev)
      → matching_events ms evs ≡ some (filter (wants ms) evs)
  unfolding matching_events wants
  matching_events-filter ms [] objects = refl
  matching_events-filter ms (ev ∷ evs) objects =
      let (x, about) = objects ev (Memᴰ.head refl) in
      ground (
        arith,
        some_matches-contains_by ev x ms about,
        matching_events-filter ms evs (λ e m. objects e (Memᴰ.tail m)),
      )

module _ {o : Objects} {T W : Type 0} where
  -- the reconcile function, called on the events that it is to see, if there are any
  abbrev pub call_on : Option (ReconcileFunc o T W) → ReconcileFunc o T W
  call_on none ctx evs t carried world = (world, none)
  call_on (some f) ctx [] t carried world = (world, none)
  call_on (some f) ctx (ev ∷ evs) t carried world = f ctx (ev ∷ evs) t carried world

  subscription_on :
      (s : Subscription o T W) (ctx : Context) (evs kept : List (ResourceEvent o)) (t : T)
      (carried : Option Fault) (world : W)
      → matching_events s.events evs ≡ some kept
      → subscription_reconcile s ctx evs t carried world
        ≡ some (call_on s.reconcile_func ctx kept t carried world)
  unfolding subscription_reconcile
  subscription_on s ctx evs [] t carried world e = ground (arith, e)
  subscription_on s ctx evs (ev ∷ kept) t carried world e = ground (arith, e)

  -- On events that have an object each, a subscription does not panic: it calls its function on the
  -- events that a matcher fits, in their order and as often, and does nothing where there are none or
  -- it has no function. A matcher fits an event where each of its fields that is set is that of the
  -- event or of its object: the old one where there is one, and the new one otherwise.
  pub subscription_reconcile_lem :
      (s : Subscription o T W) (ctx : Context) (evs : List (ResourceEvent o)) (t : T)
      (carried : Option Fault) (world : W)
      → ((ev : ResourceEvent o) → Memᴰ ev evs → HasObject ev)
      → (test : ResourceEvent o → Bool) × ((ev : ResourceEvent o)
          → HasObject ev
          → (test ev ≡ true) ↔ Wanted s.events ev)
        × (subscription_reconcile s ctx evs t carried world
            ≡ some (call_on s.reconcile_func ctx (filter test evs) t carried world))
  subscription_reconcile_lem s ctx evs t carried world objects = (
    wants s.events,
    wants_iff s.events,
    subscription_on s ctx evs _ t carried world (matching_events-filter s.events evs objects),
  )

module _ {o : Objects} (laws : ObjectsLaws o) where
  -- the events of handleCacheEvent have an object each
  pub diff-HasObject :
      (objs new_objs : Store o)
      → distinct (keys objs) ≡ true
      → distinct (keys new_objs) ≡ true
      → (ev : ResourceEvent o) → Memᴰ ev (diff o objs new_objs).1
      → HasObject ev
  diff-HasObject objs new_objs once once' ev m =
      change-HasObject ((diff_events laws objs new_objs once once' ev).0 m)
    where
      change-HasObject : {e : ResourceEvent o} → Change objs new_objs e → HasObject e
      change-HasObject (appeared uid x _ _ e) = rw e (x, new refl refl)
      change-HasObject (changed uid y x _ _ _ e) = rw e (y, old refl)
      change-HasObject (vanished uid y _ _ e) = rw e (y, old refl)

module _ {o : Objects} (laws : ObjectsLaws o) {T W : Type 0} where
  -- On the events that handleCacheEvent makes of two states of the world, in which each UID stands
  -- once, no subscription panics.
  pub subscription-diff :
      (s : Subscription o T W) (ctx : Context) (objs new_objs : Store o) (t : T)
      (carried : Option Fault) (world : W)
      → distinct (keys objs) ≡ true
      → distinct (keys new_objs) ≡ true
      → (r : W × Option Fault) × (subscription_reconcile s ctx
            (diff o objs new_objs).1
            t
            carried
            world
          ≡ some r)
  subscription-diff s ctx objs new_objs t carried world once once' =
      let (test, _, e) =
        subscription_reconcile_lem s ctx (diff o objs new_objs).1 t carried world
          (diff-HasObject laws objs new_objs once once') in
      (_, e)
