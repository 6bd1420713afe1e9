-- ===== src/Topology/Options.antt =====
-- The options of NewTopology, in machinery/topology.go.
use policy_machinery.Prelude.{List, [], true, Bool, String, false, foldl, ◌++◌, Option}
use policy_machinery.Types.{Universe, GroupKind, Object}
use policy_machinery.Dot.{Dot}

-- The errors that NewTopology returns.
pub data Error : Type 0 where
  loop_detected : Error

module _ (u : Universe) where
  open u use {
    Targetable, Policy, Reference, Other, targetable_methods, policy_methods, reference_methods,
    other_methods, set_policies, get_target_refs,
  }

  -- `func` gives `none` where a type assertion on the child panics; a parent may be nil.
  pub record LinkFunc : Type 0 where
    pub from : GroupKind
    pub to : GroupKind
    pub func : Object u → Option (List (Option (Object u)))

  pub record TopologyOptions : Type 0 where
    pub targetables : List Targetable
    pub policies : List Policy
    pub objects : List Other
    pub links : List LinkFunc
    pub allow_loops : Bool

  abbrev pub TopologyOptionsFunc : Type 0
  TopologyOptionsFunc = TopologyOptions → TopologyOptions

  pub record Topology (d : Dot) : Type 0 where
    pub graph : d.Graph
    pub targetables : List (String × Targetable)
    pub policies : List (String × Policy)
    pub objects : List (String × Other)

module _ (u : Universe) where
  open u use {
    Targetable, Policy, Reference, Other, targetable_methods, policy_methods, reference_methods,
    other_methods, set_policies, get_target_refs,
  }

  abbrev pub no_options : TopologyOptions u
  no_options = record {
    targetables = [];
    policies = [];
    objects = [];
    links = [];
    allow_loops = false;
  }

  unfoldable pub with_targetables : List Targetable → TopologyOptionsFunc u
  with_targetables ts o = record o { targetables = o.targetables ++ ts }

  unfoldable pub with_policies : List Policy → TopologyOptionsFunc u
  with_policies ps o = record o { policies = o.policies ++ ps }

  unfoldable pub with_objects : List Other → TopologyOptionsFunc u
  with_objects os o = record o { objects = o.objects ++ os }

  unfoldable pub with_links : List (LinkFunc u) → TopologyOptionsFunc u
  with_links ls o = record o { links = o.links ++ ls }

  unfoldable pub allow_loops_option : TopologyOptionsFunc u
  allow_loops_option o = record o { allow_loops = true }

  unfoldable pub apply_options : List (TopologyOptionsFunc u) → TopologyOptions u
  apply_options = foldl (λ o f. f o) no_options
