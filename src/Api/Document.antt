-- ===== src/Api/Document.antt =====
-- internal/apis/v1alpha1/document.go: a resource of the declaration, by its kind, and the whole document.
-- The decoder gives a resource the spec of the kind that it is written with.
use regied.Prelude.{ℕ, String, Bool, true, false, Option, List, [], ◌∷◌, ◌=ˢ◌, ◌⋅◌}
use regied.Api.Scalars.{MssClamp, bool_or}
use regied.Api.Link.{InterfaceSpec, PppoeSessionSpec, DsliteTunnelSpec}
use regied.Api.Firewall.{
  EgressRoutePolicySpec, IpAddressSetSpec, FirewallZoneSpec, FirewallPolicySpec, SourceNatSpec,
  PortForwardSpec,
}
use regied.Api.Serving.{DhcpServerSpec, DnsForwarderSpec, DnsRecordSetSpec}

pub data Kind : Type 0 where
  interface pppoe_session dslite_tunnel egress_route_policy ip_address_set firewall_zone : Kind
  firewall_policy source_nat port_forward dhcp_server dns_forwarder dns_record_set : Kind

unfoldable pub kind_text : Kind → String
kind_text interface = "Interface"
kind_text pppoe_session = "PPPoESession"
kind_text dslite_tunnel = "DSLiteTunnel"
kind_text egress_route_policy = "EgressRoutePolicy"
kind_text ip_address_set = "IPAddressSet"
kind_text firewall_zone = "FirewallZone"
kind_text firewall_policy = "FirewallPolicy"
kind_text source_nat = "SourceNAT"
kind_text port_forward = "PortForward"
kind_text dhcp_server = "DHCPServer"
kind_text dns_forwarder = "DNSForwarder"
kind_text dns_record_set = "DNSRecordSet"

-- the order that a name of the wrong kind is looked for in
abbrev pub kinds : List Kind
kinds =
    interface ∷ pppoe_session ∷ dslite_tunnel ∷ egress_route_policy ∷ ip_address_set ∷ firewall_zone
    ∷ firewall_policy ∷ source_nat ∷ port_forward ∷ dhcp_server ∷ dns_forwarder ∷ dns_record_set
    ∷ []

abbrev pub same_kind : Kind → Kind → Bool
same_kind a b = kind_text a =ˢ kind_text b

unfoldable pub is_link : Kind → Bool
is_link interface = true
is_link pppoe_session = true
is_link dslite_tunnel = true
is_link _ = false

pub data Spec : Type 0 where
  an_interface : InterfaceSpec → Spec
  a_session : PppoeSessionSpec → Spec
  a_tunnel : DsliteTunnelSpec → Spec
  a_route_policy : EgressRoutePolicySpec → Spec
  an_address_set : IpAddressSetSpec → Spec
  a_zone : FirewallZoneSpec → Spec
  a_policy : FirewallPolicySpec → Spec
  a_source_nat : SourceNatSpec → Spec
  a_forward : PortForwardSpec → Spec
  a_dhcp_server : DhcpServerSpec → Spec
  a_forwarder : DnsForwarderSpec → Spec
  a_record_set : DnsRecordSetSpec → Spec

unfoldable pub kind_of : Spec → Kind
kind_of (an_interface s) = interface
kind_of (a_session s) = pppoe_session
kind_of (a_tunnel s) = dslite_tunnel
kind_of (a_route_policy s) = egress_route_policy
kind_of (an_address_set s) = ip_address_set
kind_of (a_zone s) = firewall_zone
kind_of (a_policy s) = firewall_policy
kind_of (a_source_nat s) = source_nat
kind_of (a_forward s) = port_forward
kind_of (a_dhcp_server s) = dhcp_server
kind_of (a_forwarder s) = dns_forwarder
kind_of (a_record_set s) = dns_record_set

-- `metadata.name` is `name`.
pub record Resource : Type 0 where
  pub name : String
  pub spec : Spec
  pub line : ℕ

unfoldable pub ref_text : Resource → String
unfolding kind_text kind_of
ref_text r = kind_text (kind_of r.spec) ⋅ "/" ⋅ r.name

pub record Global : Type 0 where
  pub ip_forwarding : Option Bool
  pub syn_cookies : Option Bool
  pub log_martians : Option Bool
  pub send_redirects : Option Bool
  pub receive_redirects : Option Bool
  pub source_validation : Option Bool
  pub mss_clamp : MssClamp

abbrev pub source_validation_enabled : Global → Bool
source_validation_enabled g = bool_or g.source_validation false

pub record NetworkConfig : Type 0 where
  pub name : String
  pub global : Global
  pub resources : List Resource
