-- ===== src/Lib.antt =====
-- Verification of the policy machinery: the topology of resources and policies, and the controller
-- that keeps it.
--
-- The program (Go, module machinery) models a network of Gateway API resources and the policies
-- attached to them as a directed graph. `NewTopology` takes objects, targetables, policies and link
-- functions, attaches to each targetable the policies whose target references have its locator, draws
-- the graph through the package emicklei/dot, and refuses graphs with a loop. Collections of the
-- topology then answer questions on parents, children, roots and paths. `NewGatewayAPITopology` makes
-- the options of `NewTopology` for Gateway API resources: the wrappers of the resources, the sections
-- that they are expanded into, and the link functions between them. The controller (module controller)
-- keeps a cache of the resources of a cluster, tells what has changed in it as events, and passes them
-- to reconcile functions: workflows and subscriptions.
--
-- Which file models which part:
--   Dot.antt         the graph of github.com/emicklei/dot, a parameter: a record of operations, and
--                    its documented behaviour as a record of laws (DotLaws); Dot/Assoc.antt is a
--                    graph that meets them
--   Types.antt       machinery/types.go: Object, Targetable, Policy and PolicyTargetReference. The
--                    dynamic types behind the interfaces are a record (Universe) of types and methods
--   Kubernetes.antt  locators; the constants and text functions of k8s.io packages are a parameter
--   Topology.antt    machinery/topology.go: the options, NewTopology (new_topology) with its parts
--                    (build_topology), the graph building functions
--   Dag.antt         machinery/topology.go: isDAG (is_dag)
--   Collection.antt  machinery/topology.go: the collections, Parents, Children, Roots, Items, Paths
--   Gateway.antt     machinery/gateway_api_types.go, machinery/core_types.go and
--                    machinery/gateway_api_topology.go: Resources and Methods (the wrappers), Objects
--                    (the wrappers as dynamic types, over the types of other implementers), Refs and
--                    Links (what the link functions find, and the link functions), Http, Grpc, Tcp,
--                    Tls, Udp (each protocol's copies), Options and Build (NewGatewayAPITopology)
--   Controller.antt  module controller: Methods (the interface Object of object.go), Cache (cache.go),
--                    Events (events.go, and handleCacheEvent of controller.go), Loop (the handlers
--                    of controller.go and its subscription, as a step relation), Workflows
--                    (workflow.go), Subscriber (subscriber.go), Builder (topology_builder.go, and
--                    propagateLocked of controller.go)
--   Kuadrant.antt    examples/kuadrant/apis/v1: Policies (ratelimitpolicy_types.go), Strategies
--                    (merge_strategies.go, with EffectivePolicyForPath over the policies of a path)
--   Prelude.antt     shared names, slices and maps of github.com/samber/lo, and their lemmas
--   Fixture.antt     small inputs; Examples.antt and the files named ...Examples.antt apply the
--                    theorems to them
--
-- Conventions. The options of a constructor are functions on the record of options, folded in order.
-- A Go map is a list of entries with distinct keys where the program iterates over it, and a function
-- where it only reads and writes; its iteration order is that of the first insertion, and no theorem
-- depends on the order. An absent pointer is `none`. A link function gives `none` where its type
-- assertion panics, and so does `new_topology`, there and where isDAG panics; an error beside a topology is an `Option Error`. The
-- mutation of targetables by SetPolicies is the targetable that `set_policies` returns. The wrappers
-- of the five kinds of routes have the same fields, so one record serves them, with the protocol
-- beside it as the dynamic type.
--
-- The controller. The methods of Kubernetes objects, their deep copies and reflect.DeepEqual are a
-- record (Objects), and so is watchable.Map (WatchableMap), each with its documented behaviour as a
-- record of laws. A handler that holds the controller's mutex is one step; the steps interleave
-- freely. Snapshots of the watchable map are taken at any time, and one that was not delivered yet
-- is replaced by a newer one; a caller of Propagate may propagate any events at any time. The tasks
-- of a workflow run each to its end, in the order that a parameter gives (Scheduler): a permutation
-- of them, which may depend on the state of the world. What errgroup does is taken from its
-- documentation: Wait returns the first error, and the context of the group is cancelled for the
-- tasks that run after one that failed. Interleavings finer than whole tasks are not modelled.
-- `none` is a panic: a write to a nil map, a method call on a nil object, in isDAG a child that is
-- no node. The type assertions of the topology builder are a record (Casts). A merge of rate limit
-- policies works on policies that are not nil; the pointers to rules point to copies, so rules are
-- values, and `none` is a type assertion that fails or a write to a nil map of limits, which is
-- `none` itself.
--
-- Fuel. The outer loop of isDAG has fuel for every node in the queue and every edge, of which each
-- round takes one away (Dag/Loop.antt). The depth-first search of Paths has fuel for one more step
-- than the collection has items, and a path visits no locator twice (Collection/Paths.antt). `decimal`
-- has fuel for more digits than the number has.
--
-- Not modelled: labels, shapes and comments of the drawing (ToDot), which are rendering; the
-- options of NewController and the sort order of controller/object.go; the informers, watches, log
-- records and trace spans of the controller, which are calls of controller-runtime, client-go, zap
-- and OpenTelemetry; what the context of a reconcile function holds beside whether it is cancelled,
-- which is part of the world that the function reads; the other policies, the reconcilers and the
-- main program of the Kuadrant example, and the other examples.
pub mod Prelude
pub mod Dot
pub mod Dag
pub mod Types
pub mod Topology
pub mod Collection
pub mod Kubernetes
pub mod Gateway
pub mod Controller
pub mod Kuadrant
pub mod Fixture
pub mod Examples
pub mod GatewayExamples
pub mod ControllerExamples
pub mod KuadrantExamples
