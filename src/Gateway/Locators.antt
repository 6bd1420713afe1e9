-- ===== src/Gateway/Locators.antt =====
-- Locators of target references, of machinery/gateway_api_types.go: GetLocator of
-- LocalPolicyTargetReferenceWithSectionName against those of the sections.
use policy_machinery.Kubernetes.{
  Kubernetes, KubernetesLaws, locator_from_object, trim_prefix, trimmed_name,
  namespaced_section_name, to_lower,
}
use policy_machinery.Prelude.{String, none, some, ◌≡◌, refl, sym, ap, ◌∙◌, Option-cases, inl, inr}
use policy_machinery.Types.{GroupKind}
use policy_machinery.Gateway.Resources.{Meta, SectionReference}
use policy_machinery.Gateway.Methods.{
  meta_locator, section_reference_methods, section_reference_name,
}
use Prim.Native.String.{◌++◌}
use text.Mathlib.TextLemmas.{cons-append, append_assoc, nil-append}
use Prim.Native.Char.{Char, code}
use Prim.Native.Nat.{compare, Ordering}

kept_prefix-append :
    (o : Ordering) (c : Char) (s t : String)
    → (elim o [ Ordering.eq ↦ s ++ t | _ ↦ String.◌∷◌ c (s ++ t) ])
      ≡ (elim o [ Ordering.eq ↦ s | _ ↦ String.◌∷◌ c s ]) ++ t
kept_prefix-append Ordering.lt c s t = sym (cons-append c s t)
kept_prefix-append Ordering.eq c s t = refl
kept_prefix-append Ordering.gt c s t = sym (cons-append c s t)

trim_prefix-append :
    (c p : Char) (s t : String)
    → trim_prefix (String.◌∷◌ c s ++ t) p ≡ trim_prefix (String.◌∷◌ c s) p ++ t
unfolding trim_prefix
trim_prefix-append c p s t =
    ap (λ x. trim_prefix x p) (cons-append c s t)
    ∙ kept_prefix-append (compare (code c) (code p)) c s t

trim_joined :
    (ns name t : String) (c p : Char)
    → trim_prefix ((ns ++ (String.◌∷◌ c name)) ++ t) p
      ≡ trim_prefix (ns ++ (String.◌∷◌ c name)) p ++ t
trim_joined String.[] name t c p =
    ap (λ x. trim_prefix (x ++ t) p) (nil-append (String.◌∷◌ c name))
    ∙ trim_prefix-append c p name t
    ∙ ap (λ x. trim_prefix x p ++ t) (sym (nil-append (String.◌∷◌ c name)))
trim_joined (String.◌∷◌ a ns) name t c p =
    let rest = ns ++ (String.◌∷◌ c name) in
    ap (λ x. trim_prefix (x ++ t) p) (cons-append a ns (String.◌∷◌ c name))
    ∙ trim_prefix-append a p rest t
    ∙ ap (λ x. trim_prefix x p ++ t) (sym (cons-append a ns (String.◌∷◌ c name)))

module _ {k : Kubernetes} (laws : KubernetesLaws k) where
  trimmed_name-append :
      (ns name t : String) → trimmed_name k ns (name ++ t) ≡ trimmed_name k ns name ++ t
  unfolding trimmed_name
  trimmed_name-append ns name t =
      let sep = k.separator in
      ap (λ x. trim_prefix x sep)
        (laws.namespaced_name_string_lem ns (name ++ t)
          ∙ ap (λ x. ns ++ x) (sym (cons-append sep name t))
          ∙ sym (append_assoc ns (String.◌∷◌ sep name) t))
      ∙ trim_joined ns name t sep sep
      ∙ ap (λ x. trim_prefix x sep ++ t) (sym (laws.namespaced_name_string_lem ns name))

  locator_from_object-append :
      (gk : GroupKind) (ns name t : String)
      → locator_from_object k gk ns (name ++ t) ≡ locator_from_object k gk ns name ++ t
  unfolding locator_from_object
  locator_from_object-append gk ns name t =
      let head = to_lower (k.group_kind_string gk) in
      ap (λ x. head ++ (":" ++ x)) (trimmed_name-append ns name t)
      ∙ ap (λ x. head ++ x) (sym (append_assoc ":" (trimmed_name k ns name) t))
      ∙ sym (append_assoc head (":" ++ trimmed_name k ns name) t)

  -- A target reference of the kind and the name of a resource, made by a policy in the resource's
  -- namespace, has the locator of the resource if it names no section; if it names one, it has the
  -- locator that the sections of the resource form: the resource's, a "#", and the section's name.
  pub section_reference_locator_lem :
      (m : Meta) (t : SectionReference)
      → m.group_kind ≡ record { group = t.target.group; kind = t.target.kind }
      → m.namespace ≡ t.policy_namespace
      → m.name ≡ t.target.name
      → (section_reference_methods k).get_locator t ≡ (elim t.target.section_name [
        | none ↦ meta_locator k m
        | some section ↦ namespaced_section_name (meta_locator k m) section
      ])
  unfolding section_reference_methods section_reference_name namespaced_section_name
  section_reference_locator_lem m t kind ns name = elim (Option-cases t.target.section_name) [
    | inl bare ↦ rw (bare, kind, ns, name) refl
    | inr (section, named) ↦
        rw (named, kind, ns, name)
          (locator_from_object-append (record { group = t.target.group; kind = t.target.kind })
            t.policy_namespace t.target.name ("#" ++ section))
  ]
