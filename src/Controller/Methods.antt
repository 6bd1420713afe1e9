-- ===== src/Controller/Methods.antt =====
-- controller/object.go: the interface Object. Its methods are those of Kubernetes objects, which other
-- packages implement, so the dynamic type and its methods are a record.
use policy_machinery.Types.{GroupKind}
use policy_machinery.Prelude.{String, Bool, true, ◌≡◌, ◌↔◌}

pub record Objects : Type 1 where
  pub Object : Type 0
  pub get_uid : Object → String
  pub group_kind : Object → GroupKind
  pub get_namespace : Object → String
  pub get_name : Object → String
  pub deep_copy_object : Object → Object
  -- reflect.DeepEqual
  pub deep_equal : Object → Object → Bool

-- A deep copy is the same value elsewhere, and DeepEqual tells whether two values are the same.
pub record ObjectsLaws (o : Objects) : Type 0 where
  pub deep_copy_object_lem : (x : o.Object) → o.deep_copy_object x ≡ x
  pub deep_equal_iff : (x y : o.Object) → (o.deep_equal x y ≡ true) ↔ (x ≡ y)
