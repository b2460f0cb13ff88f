-- ===== src/Config/Checks/Serving.antt =====
-- internal/config/validate.go, the checks of what dnsmasq serves and of DNS records.
use regied.Prelude.{
  ℕ, String, Bool, false, not, ◌&&◌, Option, none, some, if◌then◌else◌, ◌=ˢ◌, ◌⋅◌, quote,
}
use regied.Prelude.Logged.{◌>>=◌, ◌>>◌, pure}
use regied.Api.Netip.{
  Addr, Prefix, is_valid, less, contains, is_valid_prefix, addr_text, prefix_text,
}
use regied.Api.Link.{InterfaceSpec, RouterAdvertisement, other_information_enabled}
use regied.Api.Serving.{
  DhcpServerSpec, DhcpServerIpv6, StaticMapping, Pool, DnsForwarderSpec, ConditionalForward,
  StaticHost,
}
use regied.Api.Document.{Resource}
use regied.Config.Model.{as_interface}
use regied.Config.Resolve.{
  Validator, Check, errorf, warnf, skip, when, required, required_, each_at, at, resolve_interface,
  resolve_link,
}
use regied.Config.Checks.Derived.{spec_of}
use regied.Config.Checks.Links.{advertise_of}
use regied.Config.Checks.Firewall.{is_empty_list}

-- the pool, if it is whole and does not end before it starts
check_pool : Resource → Option Pool → Check (Option Pool)
unfolding required is_valid less addr_text
check_pool r none = do required r "spec.pool" false; pure none
check_pool r (some p) = do
  starts ← required r "spec.pool.start" (is_valid p.start)
  ends ← (if starts then required r "spec.pool.end" (is_valid p.end) else pure false)
  (if starts && ends
      then (if less p.end p.start
          then (do
            errorf r "spec.pool"
                (addr_text p.start ⋅ "-" ⋅ addr_text p.end ⋅ " ends before it starts")
            pure none)
          else pure (some p))
      else pure none)

outside_subnet : Resource → String → Prefix → Bool → Addr → Check (Unit {0})
unfolding contains addr_text prefix_text
outside_subnet r field subnet has_subnet address =
    when (has_subnet && not (contains subnet address))
      (errorf r field (addr_text address ⋅ " is not inside " ⋅ prefix_text subnet))

inside_pool : Resource → String → Option Pool → Addr → Check (Unit {0})
unfolding less addr_text
inside_pool r field none address = skip
inside_pool r field (some p) address =
    when (not (less address p.start) && not (less p.end address)) (
      errorf r field
        (addr_text address ⋅ " is inside the pool " ⋅ addr_text p.start ⋅ "-" ⋅ addr_text p.end))

check_mapping : Resource → Prefix → Bool → Option Pool → ℕ → StaticMapping → Check (Unit {0})
unfolding required is_empty_list is_valid outside_subnet inside_pool
check_mapping r subnet has_subnet pool i m = do
  required r (at "spec.staticMappings" i ⋅ ".name") (not (m.name =ˢ ""))
  required r (at "spec.staticMappings" i ⋅ ".macAddress") (not (is_empty_list m.mac_address))
  given ← required r (at "spec.staticMappings" i ⋅ ".address") (is_valid m.address)
  when given (do
    outside_subnet r (at "spec.staticMappings" i ⋅ ".address") subnet has_subnet m.address
    inside_pool r (at "spec.staticMappings" i ⋅ ".address") pool m.address)

abbrev asks_dhcpv6 : Option RouterAdvertisement → Bool
asks_dhcpv6 none = false
asks_dhcpv6 (some a) = other_information_enabled a

check_asked : Resource → String → Option InterfaceSpec → Check (Unit {0})
check_asked r name none = skip
check_asked r name (some s) = when (not (asks_dhcpv6 (advertise_of s.ipv6))) (
    warnf r "spec.ipv6" (
      "the Interface "
      ⋅ quote name
      ⋅ " does not advertise otherInformation, so nothing will ask for this"))

check_dhcpv6 :
    Resource → DhcpServerSpec → Option InterfaceSpec → Option DhcpServerIpv6 → Check (Unit {0})
unfolding required check_asked
check_dhcpv6 r s iface none = skip
check_dhcpv6 r s iface (some ipv6) = do
  required r "spec.ipv6.mode" (not (ipv6.mode =ˢ ""))
  check_asked r s.interface_ref iface

unfoldable pub check_dhcp_server : Validator → Resource → DhcpServerSpec → Check (Unit {0})
unfolding required resolve_interface is_valid_prefix check_pool each_at check_mapping check_dhcpv6
    as_interface
check_dhcp_server v r s = do
  named ← required r "spec.interfaceRef" (not (s.interface_ref =ˢ ""))
  iface ← (if named then resolve_interface v r "spec.interfaceRef" s.interface_ref else pure none)
  has_subnet ← required r "spec.subnet" (is_valid_prefix s.subnet)
  pool ← check_pool r s.pool
  each_at (check_mapping r s.subnet has_subnet pool) 0 s.static_mappings
  check_dhcpv6 r s (spec_of iface) s.ipv6

check_listen : Validator → Resource → ℕ → String → Check (Unit {0})
unfolding resolve_link
check_listen v r i ref =
    when (not (ref =ˢ "loopback")) (do resolve_link v r (at "spec.listenOn" i) ref; skip)

check_conditional : Resource → ℕ → ConditionalForward → Check (Unit {0})
unfolding required is_empty_list
check_conditional r i c = do
  required r (at "spec.conditional" i ⋅ ".domain") (not (c.domain =ˢ ""))
  required_ r (at "spec.conditional" i ⋅ ".servers") (not (is_empty_list c.servers))

check_static_host : Resource → ℕ → StaticHost → Check (Unit {0})
unfolding required is_valid
check_static_host r i h = do
  required r (at "spec.staticHosts" i ⋅ ".name") (not (h.name =ˢ ""))
  required_ r (at "spec.staticHosts" i ⋅ ".address") (is_valid h.address)

unfoldable pub check_dns_forwarder : Validator → Resource → DnsForwarderSpec → Check (Unit {0})
unfolding required is_empty_list each_at check_listen check_conditional check_static_host
check_dns_forwarder v r s = do
  listens ← required r "spec.listenOn" (not (is_empty_list s.listen_on))
  when listens (each_at (check_listen v r) 0 s.listen_on)
  required r "spec.upstreams" (not (is_empty_list s.upstreams))
  each_at (check_conditional r) 0 s.conditional
  each_at (check_static_host r) 0 s.static_hosts
