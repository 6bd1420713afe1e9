-- ===== src/Kubernetes.antt =====
-- Locators, of machinery/types.go: the texts by which topology objects are told apart, and what they
-- need of k8s.io/apimachinery and sigs.k8s.io/gateway-api, which are parameters.

use Prim.Native.String.{char_at, ◌++◌}
use Prim.Native.Char.{Char, code}
use Prim.Native.Nat.{◌-◌, compare, Ordering}
use policy_machinery.Prelude.{String, ◌≡◌}
use policy_machinery.Types.{GroupKind}

-- The constants and the text functions of the packages.
pub record Kubernetes : Type 0 where
  -- gwapiv1.GroupName, and the group of the core API
  pub gateway_group : String
  pub core_group : String
  -- schema.GroupKind.String
  pub group_kind_string : GroupKind → String
  -- k8stypes.Separator, and k8stypes.NamespacedName.String
  pub separator : Char
  pub namespaced_name_string : String → String → String

-- NamespacedName.String joins the namespace and the name by the separator.
pub record KubernetesLaws (k : Kubernetes) : Type 0 where
  pub namespaced_name_string_lem :
      (namespace name : String)
      → k.namespaced_name_string namespace name ≡ namespace ++ (String.◌∷◌ k.separator name)

-- strings.ToLower on ASCII letters; groups and kinds have no others
lower_char : Char → Char
lower_char c = elim (compare 65 (code c)) [
  | Ordering.gt ↦ c
  | _ ↦ elim (compare (code c) 90) [
    | Ordering.gt ↦ c
    | _ ↦ char_at "abcdefghijklmnopqrstuvwxyz" (code c - 65)
  ]
]

unfoldable pub to_lower : String → String
unfolding lower_char
to_lower String.[] = ""
to_lower (String.◌∷◌ c s) = String.◌∷◌ (lower_char c) (to_lower s)

-- strings.TrimPrefix, for a prefix of one character
unfoldable pub trim_prefix : String → Char → String
trim_prefix String.[] p = ""
trim_prefix (String.◌∷◌ c s) p = elim (compare (code c) (code p)) [
  | Ordering.eq ↦ s
  | _ ↦ String.◌∷◌ c s
]

-- `namespacedSectionName`
unfoldable pub namespaced_section_name : String → String → String
namespaced_section_name namespace section_name = namespace ++ ("#" ++ section_name)

module _ (k : Kubernetes) where
  -- the part of a locator behind the kind
  unfoldable pub trimmed_name : String → String → String
  trimmed_name namespace name = trim_prefix (k.namespaced_name_string namespace name) k.separator

  -- `LocatorFromObject`, on what the methods of the object return
  unfoldable pub locator_from_object : GroupKind → String → String → String
  unfolding trimmed_name
  locator_from_object gk namespace name =
      to_lower (k.group_kind_string gk) ++ (":" ++ trimmed_name namespace name)
