-- ===== src/Fixture/World.antt =====
-- Objects of a small cluster, and a map in place of the watchable one.
use policy_machinery.Prelude.{
  String, Bool, ◌≡◌, ◌==◌, true, List, lookup-put, ◌∷◌, ◌&&◌, ◌↔◌, [], refl, arith, lookup, eq_iff,
  put,
}
use policy_machinery.Controller.{Objects, ObjectsLaws, WatchableMap, WatchableMapLaws, Store}
use policy_machinery.Types.{GroupKind, same_kind, same_kind_iff}

-- a resource with its metadata and the text of its spec
pub record Resource : Type 0 where
  pub uid : String
  pub kind : GroupKind
  pub namespace : String
  pub name : String
  pub spec : String

abbrev pub same_resource : Resource → Resource → Bool
same_resource a b =
    a.uid == b.uid
    && same_kind a.kind b.kind
    && a.namespace == b.namespace
    && a.name == b.name
    && a.spec == b.spec

same_resource_iff : (a b : Resource) → (same_resource a b ≡ true) ↔ (a ≡ b)
same_resource_iff a b = ground (
  arith,
  eq_iff a.uid b.uid,
  same_kind_iff a.kind b.kind,
  eq_iff a.namespace b.namespace,
  eq_iff a.name b.name,
  eq_iff a.spec b.spec,
)

abbrev pub resources : Objects
resources = record {
  Object = Resource;
  get_uid = λ x. x.uid;
  group_kind = λ x. x.kind;
  get_namespace = λ x. x.namespace;
  get_name = λ x. x.name;
  deep_copy_object = λ x. x;
  deep_equal = same_resource;
}

pub resources-laws : ObjectsLaws resources
resources-laws = record { deep_copy_object_lem = λ x. refl; deep_equal_iff = same_resource_iff }

abbrev pub assoc_map : {V : Type 0} → WatchableMap V
assoc_map {V} = record {
  State = List (String × V);
  empty_map = [];
  load = λ m k. lookup m k;
  save = λ m k v. put k v m;
}

pub assoc_map-laws : {V : Type 0} → WatchableMapLaws {V = V} assoc_map
assoc_map-laws = record { load-empty_map = λ k. refl; load-save = λ m k j v. lookup-put k j v m }

abbrev pub gateways : GroupKind
gateways = record { group = "gateway.networking.k8s.io"; kind = "Gateway" }

abbrev pub gateway_one : Resource
gateway_one = record { uid = "1"; kind = gateways; namespace = "ns"; name = "one"; spec = "a" }

abbrev pub gateway_one_changed : Resource
gateway_one_changed = record {
  uid = "1";
  kind = gateways;
  namespace = "ns";
  name = "one";
  spec = "b";
}

abbrev pub gateway_two : Resource
gateway_two = record { uid = "2"; kind = gateways; namespace = "ns"; name = "two"; spec = "a" }

abbrev pub gateway_three : Resource
gateway_three = record { uid = "3"; kind = gateways; namespace = "ns"; name = "three"; spec = "a" }

-- one and two at first; then one has changed, two is gone and three is new
abbrev pub before : Store resources
before = ("1", gateway_one) ∷ ("2", gateway_two) ∷ []

abbrev pub after : Store resources
after = ("1", gateway_one_changed) ∷ ("3", gateway_three) ∷ []
