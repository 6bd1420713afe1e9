-- ===== src/Controller/Quiet.antt =====
-- handleCacheEvent of controller/controller.go: when there is something to propagate.
use mathlib.Core.List.Memᴰ
use policy_machinery.Controller.Methods.{Objects, ObjectsLaws}
use policy_machinery.Controller.Events.{
  Snapshot, diff, handle_cache_event, ResourceEvent, resource_store_id,
}
use policy_machinery.Controller.Cache.{Store}
use policy_machinery.Prelude.{
  distinct, keys, ◌≡◌, true, String, lookup, [], is_empty, false, subst, some, none-ne-some, Memᴰ,
  none, ◌∙◌, ◌↔◌, ◌⊎◌, List, some-injective, ◌∷◌, sym, List-cases, inl, arith, inr, Bool-cases, ap,
  true-ne-false, Option-cases, refl,
}
use policy_machinery.Controller.Changes.{Change, appeared, diff_events, changed, vanished}

module _ {o : Objects} (laws : ObjectsLaws o) (snapshot : Snapshot (Store o))
    (objs new_objs : Store o) (once : distinct (keys objs) ≡ true)
    (once' : distinct (keys new_objs) ≡ true) where
  no_events : ((k : String) → lookup objs k ≡ lookup new_objs k) → (diff o objs new_objs).1 ≡ []
  no_events same = elim (List-cases (diff o objs new_objs).1) [
    | inl none_made ↦ none_made
    | inr (ev, rest, e) ↦
        absurd
          (unchanged ((diff_events laws objs new_objs once once' ev).0 (rw e (Memᴰ.head refl))))
  ]
    where
      unchanged : {ev : ResourceEvent o} → Change objs new_objs ev → ⊥
      unchanged (appeared uid x gone there _) = none-ne-some gone (same uid ∙ there)
      unchanged (changed uid y x before after ne _) =
          ne (some-injective (sym before ∙ same uid ∙ after))
      unchanged (vanished uid y there gone _) = none-ne-some gone (sym (same uid) ∙ there)

  same_of_no_events :
      (diff o objs new_objs).1 ≡ [] → (k : String) → lookup objs k ≡ lookup new_objs k
  same_of_no_events none_made k =
      by_cases (Option-cases (lookup objs k)) (Option-cases (lookup new_objs k))
    where
      impossible : {ev : ResourceEvent o} → Change objs new_objs ev → ⊥
      impossible {ev} change = Memᴰ.not-nil (
          subst (λ evs. Memᴰ ev evs) none_made
            ((diff_events laws objs new_objs once once' ev).1 change))

      by_cases :
          (lookup objs k ≡ none) ⊎ ((y : o.Object) × (lookup objs k ≡ some y))
          → (lookup new_objs k ≡ none) ⊎ ((x : o.Object) × (lookup new_objs k ≡ some x))
          → lookup objs k ≡ lookup new_objs k
      by_cases (inl gone) (inl gone') = gone ∙ sym gone'
      by_cases (inl gone) (inr (x, there)) = absurd (impossible (appeared k x gone there refl))
      by_cases (inr (y, there)) (inl gone) = absurd (impossible (vanished k y there gone refl))
      by_cases (inr (y, before)) (inr (x, after)) = elim (Bool-cases (o.deep_equal y x)) [
        | inl same ↦ before ∙ ap some ((laws.deep_equal_iff y x).0 same) ∙ sym after
        | inr differs ↦ absurd (
            impossible (
              changed k y x before after
                (λ e. true-ne-false ((laws.deep_equal_iff y x).1 e) differs) refl))
      ]

  -- A snapshot with updates makes no event to propagate exactly where its store of resources has the
  -- same object as the known objects under every UID (in both of which each UID stands once).
  pub handle_cache_event-quiet :
      is_empty snapshot.updates ≡ false
      → lookup snapshot.state resource_store_id ≡ some new_objs
      → ((handle_cache_event o snapshot objs).1 ≡ none)
        ↔ ((k : String) → lookup objs k ≡ lookup new_objs k)
  unfolding handle_cache_event
  handle_cache_event-quiet updated stored = elim (List-cases (diff o objs new_objs).1) [
    | inl e ↦ (λ h. same_of_no_events e, λ same. ground (arith, updated, stored, e))
    | inr (ev, rest, e) ↦ (
      λ h. absurd (none-ne-some {x = ev ∷ rest} h (ground (arith, updated, stored, e))),
      λ same. absurd (cons_nil (sym e ∙ no_events same)),
    )
  ]
    where
      cons_nil :
          {x : ResourceEvent o} {xs : List (ResourceEvent o)}
          → ◌≡◌ {A = List (ResourceEvent o)} (x ∷ xs) []
          → ⊥
      cons_nil e = cc
