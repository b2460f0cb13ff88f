-- ===== src/Config/Validate/Needs.antt =====
-- internal/config/validate.go: what the firewall is rendered from needs of the index, so that what it
-- refers to is there.
use regied.Prelude.{true, some, List, String, ◌≡◌, ◌⊎◌, All, ◌=ˢ◌}
use regied.Api.Firewall.{FirewallPolicySpec, FirewallRule, PortForwardSpec, ForwardTarget}
use regied.Api.Document.{
  Kind, Resource, Spec, firewall_zone, ip_address_set, an_interface, a_session, a_tunnel,
  a_route_policy, an_address_set, a_zone, a_policy, a_source_nat, a_forward, a_dhcp_server,
  a_forwarder, a_record_set,
}
use regied.Config.Model.{Entry, find_entry}
use regied.Config.Resolve.{link_kinds, find_among}
use regied.Config.Checks.Firewall.{self_zone}

-- A name of a link.
abbrev pub IsLink : List Entry → String → Type 0
IsLink index name = (r : Resource) × (find_among link_kinds name index ≡ some r)

-- A name of one kind.
abbrev pub IsOf : Kind → List Entry → String → Type 0
IsOf kind index name = (r : Resource) × (find_entry kind name index ≡ some r)

abbrev pub RuleMeets : List Entry → FirewallRule → Type 0
RuleMeets index rule =
    All (IsOf ip_address_set index) rule.source_address_set_refs
    × All (IsOf ip_address_set index) rule.destination_address_set_refs

abbrev pub PolicyMeets : List Entry → FirewallPolicySpec → Type 0
PolicyMeets index s =
    IsOf firewall_zone index s.from
    × (((s.to =ˢ self_zone) ≡ true) ⊎ IsOf firewall_zone index s.to)
    × All (RuleMeets index) s.rules

abbrev pub ForwardMeets : List Entry → PortForwardSpec → Type 0
ForwardMeets index s = IsLink index s.egress_ref × ((t : ForwardTarget) × (s.target ≡ some t))

-- What the firewall's renderer looks up of a resource is in the index.
abbrev pub Meets : List Entry → Spec → Type 0
Meets index (a_zone s) = All (IsLink index) s.link_refs
Meets index (a_policy s) = PolicyMeets index s
Meets index (a_source_nat s) = IsLink index s.egress_ref
Meets index (a_forward s) = ForwardMeets index s
Meets index (an_interface s) = Unit {0}
Meets index (a_session s) = Unit {0}
Meets index (a_tunnel s) = Unit {0}
Meets index (a_route_policy s) = Unit {0}
Meets index (an_address_set s) = Unit {0}
Meets index (a_dhcp_server s) = Unit {0}
Meets index (a_forwarder s) = Unit {0}
Meets index (a_record_set s) = Unit {0}
