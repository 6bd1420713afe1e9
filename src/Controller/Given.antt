-- ===== src/Controller/Given.antt =====
-- controller/topology_builder.go: the options that are made of a store of resources.
use mathlib.Core.List.Memᴰ
use policy_machinery.Prelude.{
  Option, List, ◌≡◌, Memᴰ, some, ◌≢◌, none-ne-some, ◌↔◌, none, some-injective, ◌∷◌, refl, subst,
  Option-cases, sym, foldl, ◌++◌, inl, ⊎_elim, inr, [], ◌∙◌, ap, append-nil, append_assoc, map,
  if◌then◌else◌, true, Bool-cases, Bool, false,
}
use policy_machinery.Controller.Builder.{
  objects_as, ◌>>=◌, Casts, policies_of_kinds, controller_extension, objects_of_kinds,
  builder_options, ControlledOther, GatewayApiTopologyBuilder, as_object_or_runtime,
}
use policy_machinery.Kubernetes.{Kubernetes}
use policy_machinery.Gateway.{
  Extension, GatewayApiTopologyOptions, GatewayApiTopologyOptionsFunc, Policy,
  with_gateway_policies, Other, with_gateway_objects, apply_gateway_options, allow_topology_loops,
}
use policy_machinery.Controller.Methods.{Objects}
use policy_machinery.Controller.Cache.{Store, filter_by_group_kind}
use policy_machinery.Types.{GroupKind}

-- a sequence that does not panic, in two parts
pub >>=-eq-some :
    {A B : Type 0} (m : Option A) (f : A → Option B) {b : B}
    → (m >>= f) ≡ some b
    → (a : A) × (m ≡ some a) × (f a ≡ some b)
>>=-eq-some none f h = absurd (none-ne-some refl h)
>>=-eq-some (some a) f h = (a, refl, h)

-- where every assertion succeeds, the list is that of the values
pub objects_as_iff :
    {A B : Type 0} (f : A → Option B) (xs : List A) {ys : List B}
    → objects_as f xs ≡ some ys
    → (y : B) → Memᴰ y ys ↔ ((x : A) × Memᴰ x xs × (f x ≡ some y))
unfolding objects_as
objects_as_iff {B = B} f [] e y =
    let same = some-injective e in
    (λ m. absurd (Memᴰ.not-nil (subst (Memᴰ y) (sym same) m)), λ (x, m, _). absurd (Memᴰ.not-nil m))
objects_as_iff {A} {B} f (x ∷ xs) {ys} e y =
    let (z, cast, e') = >>=-eq-some (f x) _ e in
    let (zs, casts, e'') = >>=-eq-some (objects_as f xs) _ e' in
    let (to, from) = objects_as_iff f xs casts y in
    (
      λ m.
          ⊎_elim (λ here. (x, Memᴰ.head refl, cast ∙ ap some (sym here)))
            (λ later. let (w, n, c) = to later in (w, Memᴰ.tail n, c))
            (Memᴰ.cases_cons (subst (Memᴰ y) (sym (some-injective e'')) m)),
      λ (w, n, c). subst (Memᴰ y) (some-injective e'') (
          ⊎_elim (λ here. Memᴰ.head (some-injective (sym c ∙ ap f here ∙ cast)))
            (λ later. Memᴰ.tail (from (w, later, c))) (Memᴰ.cases_cons n)),
    )

pub objects_as_returns :
    {A B : Type 0} (f : A → Option B) (xs : List A)
    → ((x : A) → Memᴰ x xs → f x ≢ none)
    → (ys : List B) × (objects_as f xs ≡ some ys)
unfolding objects_as
objects_as_returns f [] h = ([], refl)
objects_as_returns f (x ∷ xs) h =
    let (ys, rest) = objects_as_returns f xs (λ y m. h y (Memᴰ.tail m)) in
    elim (Option-cases (f x)) [
      | inl none_cast ↦ absurd (h x (Memᴰ.head refl) none_cast)
      | inr (y, cast) ↦ (y ∷ ys, rw (cast, rest) refl)
    ]

module _ {k : Kubernetes} {e : Extension} {o : Objects} (casts : Casts k e o) (objs : Store o) where
  abbrev pub Options : Type 0
  Options = GatewayApiTopologyOptions k (controller_extension k e o)

  abbrev apply_all :
      List (GatewayApiTopologyOptionsFunc k (controller_extension k e o)) → Options → Options
  apply_all fs x = foldl (λ y f. f y) x fs

  -- the policies of the kinds, as an object of one of the kinds that is one
  abbrev pub FromKinds : List GroupKind → Policy e.CustomPolicy → Type 0
  FromKinds kinds p =
      (kind : GroupKind) × (x : o.Object) × Memᴰ kind kinds
      × Memᴰ x (filter_by_group_kind o objs kind)
      × (casts.as_policy x ≡ some p)

  -- the options for the kinds of policies add exactly the policies of those kinds
  pub policies_of_kinds_lem :
      (kinds : List GroupKind)
      {fs : List (GatewayApiTopologyOptionsFunc k (controller_extension k e o))}
      → policies_of_kinds casts objs kinds ≡ some fs
      → (ps : List (Policy e.CustomPolicy)) × ((p : Policy e.CustomPolicy)
          → Memᴰ p ps ↔ FromKinds kinds p)
        × ((x : Options) → apply_all fs x ≡ with_gateway_policies ps x)
  unfolding policies_of_kinds
  policies_of_kinds_lem [] same = (
    [],
    λ p. (λ m. absurd (Memᴰ.not-nil m), λ (_, _, m, _, _). absurd (Memᴰ.not-nil m)),
    λ x.
        ap (λ gs. apply_all gs x) (sym (some-injective same))
        ∙ ap (λ l. record x { policies = l }) (sym (append-nil x.policies)),
  )
  policies_of_kinds_lem (kind ∷ kinds) same =
      let objects = filter_by_group_kind o objs kind in
      let (qs, cast, same') = >>=-eq-some (objects_as casts.as_policy objects) _ same in
      let (gs, others, same'') = >>=-eq-some (policies_of_kinds casts objs kinds) _ same' in
      let (ps, iff, applied) = policies_of_kinds_lem kinds others in
      let first = objects_as_iff casts.as_policy objects cast in
      (
        qs ++ ps,
        λ p. (
          λ m.
              ⊎_elim (λ here. let (x, n, c) = (first p).0 here in (kind, x, Memᴰ.head refl, n, c))
                (λ later.
                  let (j, x, there, n, c) = (iff p).0 later in (j, x, Memᴰ.tail there, n, c))
                (Memᴰ.append_cases qs m),
          λ (j, x, there, n, c).
              ⊎_elim
                (λ here.
                  Memᴰ.append_left ps (
                    (first p).1 (x, subst (λ i. Memᴰ x (filter_by_group_kind o objs i)) here n, c)))
                (λ later. Memᴰ.append_right qs ((iff p).1 (j, x, later, n, c)))
                (Memᴰ.cases_cons there),
        ),
        λ x.
            ap (λ hs. apply_all hs x) (sym (some-injective same''))
            ∙ applied (with_gateway_policies qs x)
            ∙ ap (λ l. record x { policies = l }) (append_assoc x.policies qs ps),
      )

  -- the objects of the kinds, each as it is or wrapped
  abbrev pub objects_from : List GroupKind → List (Other (ControlledOther e o))
  objects_from [] = []
  objects_from (kind ∷ kinds) =
      map (as_object_or_runtime casts) (filter_by_group_kind o objs kind) ++ objects_from kinds

  pub objects_of_kinds_lem :
      (kinds : List GroupKind) (x : Options)
      → apply_all (objects_of_kinds casts objs kinds) x
        ≡ with_gateway_objects (objects_from kinds) x
  unfolding objects_of_kinds
  objects_of_kinds_lem [] x = ap (λ l. record x { objects = l }) (sym (append-nil x.objects))
  objects_of_kinds_lem (kind ∷ kinds) x =
      let first = map (as_object_or_runtime casts) (filter_by_group_kind o objs kind) in
      objects_of_kinds_lem kinds (with_gateway_objects first x)
      ∙ ap (λ l. record x { objects = l }) (append_assoc x.objects first (objects_from kinds))

  apply_all-append :
      (fs gs : List (GatewayApiTopologyOptionsFunc k (controller_extension k e o))) (x : Options)
      → apply_all (fs ++ gs) x ≡ apply_all gs (apply_all fs x)
  apply_all-append [] gs x = refl
  apply_all-append (f ∷ fs) gs x = apply_all-append fs gs (f x)

  -- what the options after the fixed ones add
  tail_applied :
      (t : GatewayApiTopologyBuilder k e o)
      (fs : List (GatewayApiTopologyOptionsFunc k (controller_extension k e o)))
      (ps : List (Policy e.CustomPolicy)) (x : Options)
      → ((y : Options) → apply_all fs y ≡ with_gateway_policies ps y)
      → apply_all
          ((if t.allow_topology_loops then allow_topology_loops ∷ [] else [])
            ++ (fs ++ objects_of_kinds casts objs t.object_kinds))
          x
        ≡ with_gateway_objects (objects_from t.object_kinds) (
            with_gateway_policies ps (record x {
              allow_topology_loops =
                  if t.allow_topology_loops then true else x.allow_topology_loops;
            }))
  tail_applied t fs ps x applied = elim (Bool-cases t.allow_topology_loops) [
    | inl loops ↦ rw loops (rest (record x { allow_topology_loops = true }))
    | inr no_loops ↦ rw no_loops (rest x)
  ]
    where
      rest :
          (y : Options)
          → apply_all (fs ++ objects_of_kinds casts objs t.object_kinds) y
            ≡ with_gateway_objects (objects_from t.object_kinds) (with_gateway_policies ps y)
      rest y =
          apply_all-append fs (objects_of_kinds casts objs t.object_kinds) y
          ∙ ap (apply_all (objects_of_kinds casts objs t.object_kinds)) (applied y)
          ∙ objects_of_kinds_lem t.object_kinds (with_gateway_policies ps y)

  -- The options of `Build`, applied: the policies are those of the kinds of policies, the objects those
  -- of the kinds of objects, the links those given, of the store, and loops are allowed if so set.
  pub builder_options_lem :
      (t : GatewayApiTopologyBuilder k e o)
      {fs : List (GatewayApiTopologyOptionsFunc k (controller_extension k e o))}
      → builder_options casts t objs ≡ some fs
      → ((p : Policy e.CustomPolicy)
          → Memᴰ p (apply_gateway_options fs).policies ↔ FromKinds t.policy_kinds p)
        × ((apply_gateway_options fs).objects ≡ objects_from t.object_kinds)
        × ((apply_gateway_options fs).links ≡ map (λ f. f objs) t.object_links)
        × ((apply_gateway_options fs).allow_topology_loops ≡ t.allow_topology_loops)
  unfolding builder_options
  builder_options_lem t made =
      let (_, _, made1) = >>=-eq-some (objects_as casts.as_gateway_class _) _ made in
      let (_, _, made2) = >>=-eq-some (objects_as casts.as_gateway _) _ made1 in
      let (_, _, made3) = >>=-eq-some (objects_as casts.as_http_route _) _ made2 in
      let (_, _, made4) = >>=-eq-some (objects_as casts.as_grpc_route _) _ made3 in
      let (_, _, made5) = >>=-eq-some (objects_as casts.as_service _) _ made4 in
      let (fs, from, made6) = >>=-eq-some (policies_of_kinds casts objs t.policy_kinds) _ made5 in
      let (ps, iff, applied) = policies_of_kinds_lem t.policy_kinds from in
      let same =
        ap apply_gateway_options (sym (some-injective made6)) ∙ tail_applied t fs ps _ applied in
      (
        λ p. (
          λ m. (iff p).0 (subst (Memᴰ p) (ap (λ (g : Options). g.policies) same) m),
          λ h. subst (Memᴰ p) (sym (ap (λ (g : Options). g.policies) same)) ((iff p).1 h),
        ),
        ap (λ (g : Options). g.objects) same,
        ap (λ (g : Options). g.links) same,
        ap (λ (g : Options). g.allow_topology_loops) same ∙ flag t.allow_topology_loops,
      )
    where
      flag : (b : Bool) → (if b then true else false) ≡ b
      flag true = refl
      flag false = refl
