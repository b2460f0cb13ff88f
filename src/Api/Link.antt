-- ===== src/Api/Link.antt =====
-- internal/apis/v1alpha1/link.go: the links of a host.
use regied.Prelude.{ℕ, String, Bool, false, Option, none, some, List, [], ◌∷◌, ℤ}
use regied.Api.Netip.{Addr, Prefix, is_valid_prefix}
use regied.Api.Scalars.{DelegatedPrefixAddr, DerivableAddr, DerivablePrefix, bool_or}

pub record Bridge : Type 0 where
  pub members : List String

pub record RouterAdvertisementAddr : Type 0 where
  pub token : String

pub record InterfaceAddress : Type 0 where
  pub literal : Prefix
  pub from_delegated_prefix : Option DelegatedPrefixAddr
  pub from_router_advertisement : Option RouterAdvertisementAddr

unfoldable pub is_literal : InterfaceAddress → Bool
unfolding is_valid_prefix
is_literal a = is_valid_prefix a.literal

pub record Route : Type 0 where
  pub destination : DerivablePrefix
  pub via : Option DerivableAddr
  pub metric : Option ℤ

pub record PrefixDelegation : Type 0 where
  pub duid_file : String
  pub prefix_length : Option ℤ
  pub rapid_commit : Option Bool
  pub iaid : Option ℕ
  pub send_release : Option Bool

pub record Dhcpv6Client : Type 0 where
  pub prefix_delegation : Option PrefixDelegation
  pub use_dns : Option Bool

pub record RouterAdvertisement : Type 0 where
  pub mode : String
  pub other_information : Option Bool
  pub dns_servers : List Addr
  pub valid_lifetime : ℕ
  pub preferred_lifetime : ℕ

abbrev pub other_information_enabled : RouterAdvertisement → Bool
other_information_enabled r = bool_or r.other_information false

pub record AdvertisedDelegation : Type 0 where
  pub prefix_length : Option ℤ

pub record InterfaceIpv6 : Type 0 where
  pub advertise : Option RouterAdvertisement
  pub advertised_delegation : Option AdvertisedDelegation

-- `wake_on_lan` is `none` for the nil slice, which is not the empty one.
pub record InterfaceSpec : Type 0 where
  pub ifname : String
  pub bridge : Option Bridge
  pub mtu : ℤ
  pub wake_on_lan : Option (List String)
  pub addresses : List InterfaceAddress
  pub routes : List Route
  pub dhcpv6 : Option Dhcpv6Client
  pub ipv6 : Option InterfaceIpv6

abbrev advertised_in : Option InterfaceIpv6 → Option AdvertisedDelegation
advertised_in none = none
advertised_in (some ipv6) = ipv6.advertised_delegation

unfoldable pub advertised_delegation_of : InterfaceSpec → Option AdvertisedDelegation
advertised_delegation_of s = advertised_in s.ipv6

-- the prefix-delegation client of a link
abbrev pub client_of : Option Dhcpv6Client → Option PrefixDelegation
client_of none = none
client_of (some client) = client.prefix_delegation

advertised_among : List InterfaceAddress → Option RouterAdvertisementAddr
advertised_among [] = none
advertised_among (a ∷ as') = elim a.from_router_advertisement [
  | some advertised ↦ some advertised
  | none ↦ advertised_among as'
]

unfoldable pub advertised_address_of : InterfaceSpec → Option RouterAdvertisementAddr
unfolding advertised_among
advertised_address_of s = advertised_among s.addresses

pub record DefaultRoute : Type 0 where
  pub install : Option Bool
  pub metric : Option ℤ

pub record PppoeSessionSpec : Type 0 where
  pub interface_ref : String
  pub user_id_file : String
  pub password_file : String
  pub mtu : ℤ
  pub persist : Option Bool
  pub holdoff : ℕ
  pub use_dns : Option Bool
  pub default_route : Option DefaultRoute
  pub routes : List Route

pub record LocalAddressFrom : Type 0 where
  pub interface_ref : String

pub record DsliteTunnelSpec : Type 0 where
  pub underlay_ref : String
  pub local_address_from : Option LocalAddressFrom
  pub local_address : Option Addr
  pub aftr_host : String
  pub aftr_address : Option Addr
  pub mtu : ℤ
  pub ttl : Option ℤ
  pub default_route : Option DefaultRoute
  pub routes : List Route
