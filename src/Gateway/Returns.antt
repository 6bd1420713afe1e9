-- ===== src/Gateway/Returns.antt =====
-- NewGatewayAPITopology returns: the type assertions of its link functions do not fail.
use mathlib.Core.List.Memᴰ
use mathlib.Core.Option
use policy_machinery.Kubernetes.{Kubernetes}
use policy_machinery.Types.{Object, group_kind}
use policy_machinery.Topology.{
  LinkFunc, TopologyOptions, TopologyOptionsFunc, with_targetables, with_links,
}
use policy_machinery.Prelude.{
  List, [], ◌∷◌, ◌++◌, Memᴰ, ◌≡◌, ◌≢◌, none, some, Option, Bool, ◌⊎◌, inr, ⊎_elim, refl, foldl,
  subst, sym,
}
use policy_machinery.Gateway.Objects.{Extension, gateway_universe}
use policy_machinery.Gateway.Resources.{Protocol, Policy, Gateway, Listener, Route, RouteRule}
use policy_machinery.Gateway.Links.{
  as_gateway, as_listener, as_route, as_route_rule, as_service, as_service_port,
  link_gateway_to_route, link_listener_to_route, link_route_to_route_rule, link_route_to_service,
  link_route_to_service_port, link_route_rule_to_service, link_route_rule_to_service_port,
}
use policy_machinery.Gateway.Kinds.{
  gateway_group_kind, listener_group_kind, route_group_kind, route_rule_group_kind,
  service_group_kind, service_port_group_kind,
}

module _ (k : Kubernetes) (e : Extension) where
  -- an object of one of the kinds has the type that the link functions to that kind assert
  pub record IsTyped (c : Object (gateway_universe k e)) : Type 0 where
    pub of_gateway : group_kind c ≡ gateway_group_kind k → as_gateway k e c ≢ none
    pub of_listener : group_kind c ≡ listener_group_kind k → as_listener k e c ≢ none
    pub of_route : (p : Protocol) → group_kind c ≡ route_group_kind k p → as_route k e p c ≢ none
    pub of_route_rule :
        (p : Protocol) → group_kind c ≡ route_rule_group_kind k p → as_route_rule k e p c ≢ none
    pub of_service : group_kind c ≡ service_group_kind k → as_service k e c ≢ none
    pub of_service_port : group_kind c ≡ service_port_group_kind k → as_service_port k e c ≢ none

  -- the link is one of those given, or does not panic on an object of its kind that is typed
  abbrev pub IsSafe :
      List (LinkFunc (gateway_universe k e)) → LinkFunc (gateway_universe k e) → Type 0
  IsSafe given link =
      Memᴰ link given
      ⊎ ((c : Object (gateway_universe k e))
          → IsTyped c
          → group_kind c ≡ link.to
          → link.func c ≢ none)

  abbrev pub AreSafe :
      List (LinkFunc (gateway_universe k e)) → List (LinkFunc (gateway_universe k e)) → Type 0
  AreSafe given links =
      (link : LinkFunc (gateway_universe k e)) → Memᴰ link links → IsSafe given link

-- a mapped Option is there where the Option is
pub map-some : {A B : Type 0} (f : A → B) (o : Option A) → o ≢ none → Option.map f o ≢ none
map-some f none h = absurd (h refl)
map-some f (some a) h = λ e. none_ne e
  where
    none_ne : some (f a) ≡ none → ⊥
    none_ne e = cc

module _ (k : Kubernetes) (e : Extension) (given : List (LinkFunc (gateway_universe k e))) where
  -- the option keeps the links safe
  abbrev pub IsGood : TopologyOptionsFunc (gateway_universe k e) → Type 0
  IsGood f =
      (o : TopologyOptions (gateway_universe k e))
      → AreSafe k e given o.links
      → AreSafe k e given (f o).links

  pub data AllGood : List (TopologyOptionsFunc (gateway_universe k e)) → Type 0 where
    none_left : AllGood []
    one_more :
        {f : TopologyOptionsFunc (gateway_universe k e)}
        {fs : List (TopologyOptionsFunc (gateway_universe k e))}
        → IsGood f
        → AllGood fs
        → AllGood (f ∷ fs)

  pub AllGood-append :
      {fs gs : List (TopologyOptionsFunc (gateway_universe k e))}
      → AllGood fs
      → AllGood gs
      → AllGood (fs ++ gs)
  AllGood-append none_left rest = rest
  AllGood-append (one_more good more) rest = one_more good (AllGood-append more rest)

  pub AreSafe-foldl :
      (fs : List (TopologyOptionsFunc (gateway_universe k e)))
      (o : TopologyOptions (gateway_universe k e))
      → AllGood fs
      → AreSafe k e given o.links
      → AreSafe k e given (foldl (λ x f. f x) o fs).links
  AreSafe-foldl _ o none_left safe = safe
  AreSafe-foldl _ o (one_more {f} {fs} good more) safe = AreSafe-foldl fs (f o) more (good o safe)

  pub AreSafe-nil : AreSafe k e given []
  AreSafe-nil link m = absurd (Memᴰ.not-nil m)

  pub AreSafe-cons :
      (l : LinkFunc (gateway_universe k e)) (ls : List (LinkFunc (gateway_universe k e)))
      → IsSafe k e given l
      → AreSafe k e given ls
      → AreSafe k e given (l ∷ ls)
  AreSafe-cons l ls safe rest link m =
      ⊎_elim (λ same. subst (IsSafe k e given) (sym same) safe) (rest link) (Memᴰ.cases_cons m)

  pub with_links-IsGood :
      (ls : List (LinkFunc (gateway_universe k e)))
      → AreSafe k e given ls
      → IsGood (with_links (gateway_universe k e) ls)
  unfolding with_links
  with_links-IsGood ls safe o before link m =
      ⊎_elim (before link) (safe link) (Memᴰ.append_cases o.links m)

  pub with_targetables-IsGood :
      (ts : List (gateway_universe k e).Targetable)
      → IsGood (with_targetables (gateway_universe k e) ts)
  unfolding with_targetables
  with_targetables-IsGood ts o before = before

  pub one_link-IsGood :
      (l : LinkFunc (gateway_universe k e))
      → IsSafe k e given l
      → IsGood (with_links (gateway_universe k e) (l ∷ []))
  one_link-IsGood l safe = with_links-IsGood (l ∷ []) (AreSafe-cons l [] safe AreSafe-nil)

  pub two_links-IsGood :
      (l m : LinkFunc (gateway_universe k e))
      → IsSafe k e given l
      → IsSafe k e given m
      → IsGood (with_links (gateway_universe k e) (l ∷ m ∷ []))
  two_links-IsGood l m safe_l safe_m =
      with_links-IsGood (l ∷ m ∷ [])
        (AreSafe-cons l (m ∷ []) safe_l (AreSafe-cons m [] safe_m AreSafe-nil))

  module _ (p : Protocol) where
    pub link_gateway_to_route-IsSafe :
        (gs : List (Gateway (Policy e.CustomPolicy)))
        → IsSafe k e given (link_gateway_to_route k e p gs)
    unfolding link_gateway_to_route
    link_gateway_to_route-IsSafe gs =
        inr (λ c typed kind. map-some _ (as_route k e p c) (typed.of_route p kind))

    pub link_listener_to_route-IsSafe :
        (gs : List (Gateway (Policy e.CustomPolicy))) (ls : List (Listener (Policy e.CustomPolicy)))
        → IsSafe k e given (link_listener_to_route k e p gs ls)
    unfolding link_listener_to_route
    link_listener_to_route-IsSafe gs ls =
        inr (λ c typed kind. map-some _ (as_route k e p c) (typed.of_route p kind))

    pub link_route_to_route_rule-IsSafe : IsSafe k e given (link_route_to_route_rule k e p)
    unfolding link_route_to_route_rule
    link_route_to_route_rule-IsSafe =
        inr (λ c typed kind. map-some _ (as_route_rule k e p c) (typed.of_route_rule p kind))

    pub link_route_to_service-IsSafe :
        (rs : List (Route (Policy e.CustomPolicy))) (strict : Bool)
        → IsSafe k e given (link_route_to_service k e p rs strict)
    unfolding link_route_to_service
    link_route_to_service-IsSafe rs strict =
        inr (λ c typed kind. map-some _ (as_service k e c) (typed.of_service kind))

    pub link_route_to_service_port-IsSafe :
        (rs : List (Route (Policy e.CustomPolicy)))
        → IsSafe k e given (link_route_to_service_port k e p rs)
    unfolding link_route_to_service_port
    link_route_to_service_port-IsSafe rs =
        inr (λ c typed kind. map-some _ (as_service_port k e c) (typed.of_service_port kind))

    pub link_route_rule_to_service-IsSafe :
        (rs : List (RouteRule (Policy e.CustomPolicy))) (strict : Bool)
        → IsSafe k e given (link_route_rule_to_service k e p rs strict)
    unfolding link_route_rule_to_service
    link_route_rule_to_service-IsSafe rs strict =
        inr (λ c typed kind. map-some _ (as_service k e c) (typed.of_service kind))

    pub link_route_rule_to_service_port-IsSafe :
        (rs : List (RouteRule (Policy e.CustomPolicy)))
        → IsSafe k e given (link_route_rule_to_service_port k e p rs)
    unfolding link_route_rule_to_service_port
    link_route_rule_to_service_port-IsSafe rs =
        inr (λ c typed kind. map-some _ (as_service_port k e c) (typed.of_service_port kind))
