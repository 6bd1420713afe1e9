-- ===== src/Controller/Builder.antt =====
-- controller/topology_builder.go, RuntimeObject of controller/object.go, and propagateLocked of
-- controller/controller.go.
use policy_machinery.Controller.Workflows.{Context}
use policy_machinery.Gateway.{
  Other, Policy, Extension, GatewayClassSpec, GatewaySpec, GatewayApiTopologyOptionsFunc,
  gateway_universe, custom_other, RouteSpec, with_gateway_objects, new_gateway_api_topology,
  ServiceSpec, with_gateway_policies, gateway_class_group_kind, gateway_group_kind,
  route_group_kind, http, grpc, service_group_kind, with_gateway_classes, with_gateways,
  with_http_routes, with_grpc_routes, with_services, expand_gateway_listeners, expand_route_rules,
  expand_service_ports, with_gateway_links, allow_topology_loops,
}
use policy_machinery.Kubernetes.{Kubernetes, locator_from_object}
use policy_machinery.Topology.{LinkFunc, Topology, Error, loop_detected}
use policy_machinery.Prelude.{Option, List, some, ◌∷◌, none, Bool, [], map, ◌++◌, if◌then◌else◌}
use policy_machinery.Controller.Methods.{Objects}
use policy_machinery.Types.{ObjectMethods, GroupKind}
use policy_machinery.Controller.Cache.{Store, WatchableMap, filter_by_group_kind, cache_list}
use policy_machinery.Dot.{Dot}
use policy_machinery.Controller.Workflows.{Fault, raised, ReconcileFunc}
use policy_machinery.Controller.Events.{ResourceEvent, resource_store_id}

infixl 5 ◌>>=◌
-- the rest of a function, unless what comes before it panics
abbrev pub ◌>>=◌ : {A B : Type 0} → Option A → (A → Option B) → Option B
none >>= f = none
some a >>= f = f a

-- The values behind machinery.Object: those of its implementers elsewhere, and RuntimeObject.
pub data ControlledOther (e : Extension) (o : Objects) : Type 0 where
  machinery_object : e.CustomOther → ControlledOther e o
  runtime_object : o.Object → ControlledOther e o

module _ (k : Kubernetes) (e : Extension) (o : Objects) where
  -- the methods of RuntimeObject
  unfoldable pub runtime_object_methods : ObjectMethods o.Object
  runtime_object_methods = record {
    group_kind = o.group_kind;
    get_namespace = o.get_namespace;
    get_name = o.get_name;
    get_locator = λ x. locator_from_object k (o.group_kind x) (o.get_namespace x) (o.get_name x);
  }

  -- a method of an object of either type
  abbrev by_type : {A : Type 0} → (e.CustomOther → A) → (o.Object → A) → ControlledOther e o → A
  by_type f g (machinery_object x) = f x
  by_type f g (runtime_object x) = g x

  -- the types of other implementers, with RuntimeObject
  abbrev pub controller_extension : Extension
  controller_extension = record {
    CustomTargetable = e.CustomTargetable;
    CustomPolicy = e.CustomPolicy;
    CustomReference = e.CustomReference;
    CustomOther = ControlledOther e o;
    targetable_methods = e.targetable_methods;
    policy_methods = e.policy_methods;
    reference_methods = e.reference_methods;
    other_methods = record {
      group_kind = by_type e.other_methods.group_kind runtime_object_methods.group_kind;
      get_namespace = by_type e.other_methods.get_namespace runtime_object_methods.get_namespace;
      get_name = by_type e.other_methods.get_name runtime_object_methods.get_name;
      get_locator = by_type e.other_methods.get_locator runtime_object_methods.get_locator;
    };
    policies = e.policies;
    set_policies = e.set_policies;
    get_target_refs = e.get_target_refs;
  }

  -- the type assertions on an Object, each for one type; `none` is a failure
  pub record Casts : Type 0 where
    pub as_gateway_class : o.Object → Option GatewayClassSpec
    pub as_gateway : o.Object → Option GatewaySpec
    pub as_http_route : o.Object → Option RouteSpec
    pub as_grpc_route : o.Object → Option RouteSpec
    pub as_service : o.Object → Option ServiceSpec
    pub as_policy : o.Object → Option (Policy e.CustomPolicy)
    pub as_machinery_object : o.Object → Option (Other (ControlledOther e o))

  pub record GatewayApiTopologyBuilder : Type 0 where
    pub policy_kinds : List GroupKind
    pub object_kinds : List GroupKind
    pub object_links : List (Store o → LinkFunc (gateway_universe k controller_extension))
    pub allow_topology_loops : Bool

-- lo.Map with `ObjectAs`: a failed assertion gives nil, on which NewTopology panics, since it calls a
-- method of each targetable and of each policy that it is given.
unfoldable pub objects_as : {A B : Type 0} → (A → Option B) → List A → Option (List B)
objects_as f [] = some []
objects_as f (x ∷ xs) = f x >>= λ y. objects_as f xs >>= λ ys. some (y ∷ ys)

module _ {k : Kubernetes} {e : Extension} {o : Objects} (casts : Casts k e o) where
  -- the loop over the kinds of policies
  unfoldable pub policies_of_kinds :
      Store o
      → List GroupKind
      → Option (List (GatewayApiTopologyOptionsFunc k (controller_extension k e o)))
  policies_of_kinds objs [] = some []
  policies_of_kinds objs (kind ∷ kinds) =
      objects_as casts.as_policy (filter_by_group_kind o objs kind) >>= λ policies.
      policies_of_kinds objs kinds >>= λ rest. some (with_gateway_policies policies ∷ rest)

  -- an object as it is, or wrapped
  abbrev pub as_object_or_runtime : o.Object → Other (ControlledOther e o)
  as_object_or_runtime x = elim (casts.as_machinery_object x) [
    | some object ↦ object
    | none ↦ custom_other (runtime_object x)
  ]

  -- the loop over the kinds of objects
  unfoldable pub objects_of_kinds :
      Store o → List GroupKind → List (GatewayApiTopologyOptionsFunc k (controller_extension k e o))
  objects_of_kinds objs [] = []
  objects_of_kinds objs (kind ∷ kinds) =
      with_gateway_objects (map as_object_or_runtime (filter_by_group_kind o objs kind))
      ∷ objects_of_kinds objs kinds

  -- the options that `Build` hands to NewGatewayAPITopology
  unfoldable pub builder_options :
      GatewayApiTopologyBuilder k e o
      → Store o
      → Option (List (GatewayApiTopologyOptionsFunc k (controller_extension k e o)))
  builder_options t objs = do
    gateway_classes ←
        objects_as casts.as_gateway_class (filter_by_group_kind o objs (gateway_class_group_kind k))
    gateways ← objects_as casts.as_gateway (filter_by_group_kind o objs (gateway_group_kind k))
    http_routes ←
        objects_as casts.as_http_route (filter_by_group_kind o objs (route_group_kind k http))
    grpc_routes ←
        objects_as casts.as_grpc_route (filter_by_group_kind o objs (route_group_kind k grpc))
    services ← objects_as casts.as_service (filter_by_group_kind o objs (service_group_kind k))
    policies ← policies_of_kinds objs t.policy_kinds
    some (
        (with_gateway_classes gateway_classes
          ∷ with_gateways gateways
          ∷ with_http_routes http_routes
          ∷ with_grpc_routes grpc_routes
          ∷ with_services services
          ∷ expand_gateway_listeners
          ∷ expand_route_rules http
          ∷ expand_route_rules grpc
          ∷ expand_service_ports
          ∷ with_gateway_links (map (λ f. f objs) t.object_links)
          ∷ [])
        ++ ((if t.allow_topology_loops then allow_topology_loops ∷ [] else [])
            ++ (policies ++ objects_of_kinds objs t.object_kinds)))

  -- `Build`
  unfoldable pub build_from_store :
      (d : Dot)
      → GatewayApiTopologyBuilder k e o
      → Store o
      → Option (Topology (gateway_universe k (controller_extension k e o)) d × Option Error)
  build_from_store d t objs = builder_options t objs >>= λ options.
      new_gateway_api_topology k (controller_extension k e o) d options

  -- the error of `Build` as the error that the reconcile function is given
  abbrev pub build_error : Option Error → Option Fault
  build_error none = none
  build_error (some loop_detected) =
      some (raised "loop detected in the graph, check linking functions")

  -- `propagateLocked`: the error of the reconcile function is logged only
  unfoldable pub propagate_locked :
      {W : Type 0} (d : Dot) (w : WatchableMap (Store o))
      → GatewayApiTopologyBuilder k e o
      → w.State
      → ReconcileFunc o (Topology (gateway_universe k (controller_extension k e o)) d) W
      → Context
      → List (ResourceEvent o)
      → W
      → Option W
  propagate_locked d w t cache f ctx events world =
      build_from_store d t (cache_list o w cache resource_store_id) >>= λ (topology, err).
      some (f ctx events topology (build_error err) world).0
