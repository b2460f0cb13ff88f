-- ===== src/Api/Serving.antt =====
-- internal/apis/v1alpha1/dnsmasq.go and dns.go: what dnsmasq serves, and the records at a DNS provider.
use regied.Prelude.{ℕ, String, Bool, false, Option, List, if◌then◌else◌, ◌=ˢ◌, ℤ}
use regied.Api.Netip.{Addr, Prefix}
use regied.Api.Scalars.{DelegatedPrefixAddr, bool_or}

pub record Pool : Type 0 where
  pub start : Addr
  pub end : Addr

-- `mac_address` is the bytes of the address.
pub record StaticMapping : Type 0 where
  pub name : String
  pub mac_address : List ℕ
  pub address : Addr

pub record DhcpServerIpv6 : Type 0 where
  pub mode : String
  pub dns_servers : List Addr
  pub information_refresh_time : ℕ

pub record DhcpServerSpec : Type 0 where
  pub interface_ref : String
  pub subnet : Prefix
  pub pool : Option Pool
  pub lease_time : ℕ
  pub gateway : Option Addr
  pub dns_servers : List Addr
  pub domain : String
  pub static_mappings : List StaticMapping
  pub ipv6 : Option DhcpServerIpv6

pub record ConditionalForward : Type 0 where
  pub domain : String
  pub servers : List Addr

pub record StaticHost : Type 0 where
  pub name : String
  pub address : Addr

pub record DnsForwarderSpec : Type 0 where
  pub listen_on : List String
  pub cache_size : Option ℤ
  pub upstreams : List Addr
  pub conditional : List ConditionalForward
  pub static_hosts : List StaticHost

-- DNSRecordAddress: the decoder sees to it that exactly one of the two is written.
pub data RecordAddress : Type 0 where
  delegated : DelegatedPrefixAddr → RecordAddress
  advertised : String → RecordAddress

pub record DnsRecord : Type 0 where
  pub names : List String
  pub kind : String
  pub egress_ref : String
  pub address : Option RecordAddress
  pub proxied : Option Bool
  pub ttl : ℕ

unfoldable pub type_or_default : DnsRecord → String
type_or_default r = if r.kind =ˢ "" then "A" else r.kind

abbrev pub proxied_enabled : DnsRecord → Bool
proxied_enabled r = bool_or r.proxied false

pub record DnsRecordSetSpec : Type 0 where
  pub provider : String
  pub zone : String
  pub api_token_file : String
  pub records : List DnsRecord
