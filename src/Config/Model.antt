-- ===== src/Config/Model.antt =====
-- internal/config/config.go and buildIndex of validate.go: the declaration with its index and what was
-- derived. A nil map entry is `none`; the map of maps is one list of entries, by kind and name.
use regied.Prelude.{String, ◌&&◌, Option, none, some, List, [], ◌∷◌, if◌then◌else◌, ◌=ˢ◌, get}
use regied.Api.Link.{InterfaceSpec, PppoeSessionSpec, DsliteTunnelSpec}
use regied.Api.Firewall.{
  EgressRoutePolicySpec, IpAddressSetSpec, FirewallZoneSpec, FirewallPolicySpec, SourceNatSpec,
  PortForwardSpec,
}
use regied.Api.Serving.{DnsRecordSetSpec}
use regied.Api.Document.{
  Kind, same_kind, Spec, kind_of, Resource, NetworkConfig, an_interface, a_session, a_tunnel,
  a_route_policy, an_address_set, a_zone, a_policy, a_source_nat, a_forward, a_record_set,
}
use regied.Config.Derive.{PolicyRouting}
use regied.Config.Returns.{ForwardReturn}
use regied.Config.Problem.{Problem}

-- index[kind][name]
pub record Entry : Type 0 where
  pub kind : Kind
  pub name : String
  pub resource : Resource

unfoldable pub find_entry : Kind → String → List Entry → Option Resource
find_entry kind name [] = none
find_entry kind name (e ∷ es) =
    let rest = find_entry kind name es in
    if same_kind e.kind kind && (e.name =ˢ name) then some e.resource else rest

pub record Config : Type 0 where
  pub document : NetworkConfig
  pub index : List Entry
  pub routing : List (String × PolicyRouting)
  pub returns : List ForwardReturn
  pub warnings : List Problem

-- Lookup
unfoldable pub lookup : Config → Kind → String → Option Resource
unfolding find_entry
lookup c kind name = find_entry kind name c.index

unfoldable pub policy_routing : Config → String → Option PolicyRouting
policy_routing c name = get name c.routing

return_among : String → String → List ForwardReturn → Option ForwardReturn
return_among uplink family [] = none
return_among uplink family (r ∷ rs) =
    let rest = return_among uplink family rs in
    if (r.uplink =ˢ uplink) && (r.family =ˢ family) then some r else rest

unfoldable pub forward_return : Config → String → String → Option ForwardReturn
unfolding return_among
forward_return c uplink family = return_among uplink family c.returns

-- Named
pub record Named (S : Type 0) : Type 0 where
  pub name : String
  pub spec : S

abbrev pub keep : {S : Type 0} → String → Option S → List (Named S) → List (Named S)
keep name none rest = rest
keep name (some s) rest = record { name = name; spec = s } ∷ rest

-- ResourcesOf, by what makes a spec one of the type
unfoldable pub resources_of : {S : Type 0} → (Spec → Option S) → List Resource → List (Named S)
resources_of of [] = []
resources_of of (r ∷ rs) = keep r.name (of r.spec) (resources_of of rs)

unfoldable pub as_interface : Spec → Option InterfaceSpec
as_interface (an_interface s) = some s
as_interface _ = none

unfoldable pub as_session : Spec → Option PppoeSessionSpec
as_session (a_session s) = some s
as_session _ = none

unfoldable pub as_tunnel : Spec → Option DsliteTunnelSpec
as_tunnel (a_tunnel s) = some s
as_tunnel _ = none

unfoldable pub as_route_policy : Spec → Option EgressRoutePolicySpec
as_route_policy (a_route_policy s) = some s
as_route_policy _ = none

unfoldable pub as_address_set : Spec → Option IpAddressSetSpec
as_address_set (an_address_set s) = some s
as_address_set _ = none

unfoldable pub as_zone : Spec → Option FirewallZoneSpec
as_zone (a_zone s) = some s
as_zone _ = none

unfoldable pub as_policy : Spec → Option FirewallPolicySpec
as_policy (a_policy s) = some s
as_policy _ = none

unfoldable pub as_source_nat : Spec → Option SourceNatSpec
as_source_nat (a_source_nat s) = some s
as_source_nat _ = none

unfoldable pub as_forward : Spec → Option PortForwardSpec
as_forward (a_forward s) = some s
as_forward _ = none

unfoldable pub as_record_set : Spec → Option DnsRecordSetSpec
as_record_set (a_record_set s) = some s
as_record_set _ = none

-- byKind
unfoldable pub by_kind : Kind → List Resource → List Resource
unfolding kind_of
by_kind kind [] = []
by_kind kind (r ∷ rs) =
    let rest = by_kind kind rs in if same_kind (kind_of r.spec) kind then r ∷ rest else rest
