-- ===== src/Types.antt =====
-- machinery/types.go: the interfaces Object, Targetable and Policy. The program is open to other
-- implementations, so the dynamic types behind the interfaces and their methods are a record.
use policy_machinery.Prelude.{String, Bool, List, ◌==◌, ◌≡◌, true, ◌&&◌, ◌↔◌, arith, eq_iff}

-- schema.GroupKind
pub record GroupKind : Type 0 where
  pub group : String
  pub kind : String

-- Go's `==` on a struct of strings
abbrev pub same_kind : GroupKind → GroupKind → Bool
same_kind a b = a.group == b.group && a.kind == b.kind

pub same_kind_iff : (a b : GroupKind) → (same_kind a b ≡ true) ↔ (a ≡ b)
same_kind_iff a b = ground (arith, eq_iff a.group b.group, eq_iff a.kind b.kind)

-- the methods of the interface Object
pub record ObjectMethods (A : Type 0) : Type 0 where
  pub group_kind : A → GroupKind
  pub get_namespace : A → String
  pub get_name : A → String
  pub get_locator : A → String

-- The dynamic types behind Targetable, Policy, PolicyTargetReference and any other Object.
pub record Universe : Type 1 where
  pub Targetable : Type 0
  pub Policy : Type 0
  pub Reference : Type 0
  pub Other : Type 0
  pub targetable_methods : ObjectMethods Targetable
  pub policy_methods : ObjectMethods Policy
  pub reference_methods : ObjectMethods Reference
  pub other_methods : ObjectMethods Other
  pub policies : Targetable → List Policy
  pub set_policies : Targetable → List Policy → Targetable
  pub get_target_refs : Policy → List Reference

-- What the topology relies on: a targetable keeps the policies that it is given, and its identity.
pub record UniverseLaws (u : Universe) : Type 0 where
  pub policies-set_policies :
      (t : u.Targetable) (ps : List u.Policy) → u.policies (u.set_policies t ps) ≡ ps
  pub get_locator-set_policies :
      (t : u.Targetable) (ps : List u.Policy)
      → u.targetable_methods.get_locator (u.set_policies t ps) ≡ u.targetable_methods.get_locator t
  pub group_kind-set_policies :
      (t : u.Targetable) (ps : List u.Policy)
      → u.targetable_methods.group_kind (u.set_policies t ps) ≡ u.targetable_methods.group_kind t

-- A value of the interface Object, with its dynamic type.
pub data Object (u : Universe) : Type 0 where
  targetable : u.Targetable → Object u
  policy : u.Policy → Object u
  other : u.Other → Object u

module _ {u : Universe} where
  abbrev pub group_kind : Object u → GroupKind
  group_kind (targetable t) = u.targetable_methods.group_kind t
  group_kind (policy p) = u.policy_methods.group_kind p
  group_kind (other o) = u.other_methods.group_kind o

  abbrev pub get_locator : Object u → String
  get_locator (targetable t) = u.targetable_methods.get_locator t
  get_locator (policy p) = u.policy_methods.get_locator p
  get_locator (other o) = u.other_methods.get_locator o
