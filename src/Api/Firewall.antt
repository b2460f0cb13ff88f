-- ===== src/Api/Firewall.antt =====
-- internal/apis/v1alpha1/firewall.go and nat.go: policy routing, address sets, zones and policies, and
-- the two kinds of translation.
use regied.Prelude.{
  ℕ, String, Bool, true, false, not, ◌||◌, Option, none, some, List, [], ◌∷◌, if◌then◌else◌, ◌=ˢ◌,
  ℤ,
}
use regied.Api.Netip.{Addr, Prefix}
use regied.Api.Scalars.{
  SourceRange, PortSpec, Protocol, DerivableAddr, DerivablePrefix, bool_or, family_ipv4,
  is_derived_addr, is_derived_prefix,
}

pub record EgressRoutePolicySpec : Type 0 where
  pub family : String
  pub priority : Option ℤ
  pub egress_ref : String
  pub source_ranges : List SourceRange
  pub source_address_set_refs : List String
  pub exclude_destinations : List Prefix
  pub table : Option ℤ
  pub mark : Option ℕ

unfoldable pub policy_family : EgressRoutePolicySpec → String
policy_family s = if s.family =ˢ "" then family_ipv4 else s.family

pub record IpAddressSetSpec : Type 0 where
  pub family : String
  pub addresses : List DerivableAddr
  pub networks : List DerivablePrefix

any_derived_addr : List DerivableAddr → Bool
any_derived_addr [] = false
any_derived_addr (a ∷ rest) = is_derived_addr a || any_derived_addr rest

any_derived_prefix : List DerivablePrefix → Bool
any_derived_prefix [] = false
any_derived_prefix (p ∷ rest) = is_derived_prefix p || any_derived_prefix rest

unfoldable pub has_derived : IpAddressSetSpec → Bool
unfolding any_derived_addr any_derived_prefix
has_derived s = any_derived_addr s.addresses || any_derived_prefix s.networks

pub record FirewallZoneSpec : Type 0 where
  pub link_refs : List String

pub record FirewallRule : Type 0 where
  pub name : String
  pub action : String
  pub family : String
  pub protocol : Option Protocol
  pub source_cidrs : List Prefix
  pub source_address_set_refs : List String
  pub source_ports : List PortSpec
  pub destination_cidrs : List Prefix
  pub destination_address_set_refs : List String
  pub destination_ports : List PortSpec
  pub log : Option Bool

abbrev pub log_enabled : FirewallRule → Bool
log_enabled r = bool_or r.log false

pub record FirewallPolicySpec : Type 0 where
  pub from : String
  pub to : String
  pub default_action : String
  pub log_default : Option Bool
  pub stateful : Option Bool
  pub rules : List FirewallRule

abbrev pub log_default_enabled : FirewallPolicySpec → Bool
log_default_enabled s = bool_or s.log_default (not (s.default_action =ˢ "accept"))

abbrev pub stateful_enabled : FirewallPolicySpec → Bool
stateful_enabled s = bool_or s.stateful true

pub record SourceNatSpec : Type 0 where
  pub kind : String
  pub egress_ref : String
  pub source_ranges : List Prefix
  pub exclude_destinations : List Prefix

pub record ForwardTarget : Type 0 where
  pub address : Addr
  pub port : Option ℕ
  pub port_range : Option PortSpec

pub record PortForwardSpec : Type 0 where
  pub egress_ref : String
  pub protocol : Protocol
  pub port : Option ℕ
  pub port_range : Option PortSpec
  pub target : Option ForwardTarget
  pub hairpin : Option Bool
  pub open_firewall : Option Bool

abbrev pub hairpin_enabled : PortForwardSpec → Bool
hairpin_enabled s = bool_or s.hairpin true

abbrev pub open_firewall_enabled : PortForwardSpec → Bool
open_firewall_enabled s = bool_or s.open_firewall true

abbrev ports_or : Option ℕ → Option PortSpec → PortSpec → PortSpec
ports_or (some p) range fallback = record { from = p; to = p }
ports_or none (some range) fallback = range
ports_or none none fallback = fallback

-- Ports
unfoldable pub listening_ports : PortForwardSpec → PortSpec
listening_ports s = ports_or s.port s.port_range (record { from = 0; to = 0 })

abbrev ports_of_target : Option ForwardTarget → PortSpec → PortSpec
ports_of_target none fallback = fallback
ports_of_target (some t) fallback = ports_or t.port t.port_range fallback

unfoldable pub target_ports : PortForwardSpec → PortSpec
unfolding listening_ports
target_ports s = ports_of_target s.target (listening_ports s)
