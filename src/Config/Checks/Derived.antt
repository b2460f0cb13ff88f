-- ===== src/Config/Checks/Derived.antt =====
-- internal/config/validate.go, the checks of values cut from a delegated prefix, and of routes. A
-- resource that resolves as an Interface has an Interface's spec, by the index.
use regied.Prelude.{
  ℕ, ◌/◌, ◌^◌, String, Bool, false, not, ◌&&◌, ◌||◌, Option, none, some, List, if◌then◌else◌, ◌==◌,
  ◌=ˢ◌, ◌⋅◌, quote, is_some, ltb,
}
use regied.Prelude.Logged.{◌>>=◌, ◌>>◌, pure}
use regied.Api.Netip.{Addr, addr6, is4in6, is_valid_prefix}
use regied.Api.Netip.Parse.{parse_addr}
use regied.Api.Scalars.{DelegatedPrefixAddr, DerivableAddr}
use regied.Api.Link.{InterfaceSpec, Route, advertised_delegation_of, client_of}
use regied.Api.Document.{Resource}
use regied.Config.Model.{as_interface}
use regied.Config.Resolve.{
  Validator, Check, errorf, skip, when, required, each_at, at, resolve_interface,
}

host_part : Addr → Bool
unfolding is4in6
host_part (addr6 n zone) = not (is4in6 (addr6 n zone)) && (zone =ˢ "") && n / 2 ^ 64 == 0 && ltb 0 n
host_part _ = false

unfoldable pub is_interface_identifier : String → Bool
unfolding host_part parse_addr
is_interface_identifier token = host_part (parse_addr token)

abbrev pub spec_of : Option Resource → Option InterfaceSpec
spec_of none = none
spec_of (some r) = as_interface r.spec

-- a link that neither asks for a prefix nor states an advertised one
knows_delegation : InterfaceSpec → Bool
unfolding advertised_delegation_of
knows_delegation s = is_some (client_of s.dhcpv6) || is_some (advertised_delegation_of s)

source_of :
    Resource → String → DelegatedPrefixAddr → Option InterfaceSpec → Check (Option InterfaceSpec)
unfolding knows_delegation
source_of r field d none = pure none
source_of r field d (some upstream) = do
  when (not (knows_delegation upstream)) (
      errorf r (field ⋅ ".interfaceRef") (
        "the Interface "
        ⋅ quote d.interface_ref
        ⋅ " has no prefix-delegation client and declares no ipv6.advertisedDelegation"))
  pure (some upstream)

unfoldable pub check_delegation_source :
    Validator → Resource → String → DelegatedPrefixAddr → Check (Option InterfaceSpec)
unfolding required resolve_interface source_of as_interface
check_delegation_source v r field d = do
  named ← required r (field ⋅ ".interfaceRef") (not (d.interface_ref =ˢ ""))
  (if named
      then (do
        required r (field ⋅ ".subnetID") (is_some d.subnet_id)
        upstream ← resolve_interface v r (field ⋅ ".interfaceRef") d.interface_ref
        source_of r field d (spec_of upstream))
      else pure none)

unfoldable pub check_token : Resource → String → String → Check (Unit {0})
unfolding required is_interface_identifier
check_token r field token = do
  present ← required r field (not (token =ˢ ""))
  when (present && not (is_interface_identifier token)) (
      errorf r field (
        quote token
        ⋅ " is not an interface identifier; write the host part of an IPv6 address, e.g. \"::1\""))

unfoldable pub check_derived_address :
    Validator → Resource → String → DelegatedPrefixAddr → Check (Unit {0})
unfolding check_token check_delegation_source
check_derived_address v r field d = do
  check_token r (field ⋅ ".token") d.token
  check_delegation_source v r field d
  skip

unfoldable pub check_derived_subnet :
    Validator → Resource → String → String → DelegatedPrefixAddr → Check (Unit {0})
unfolding check_delegation_source
check_derived_subnet v r field what d = do
  when (not (d.token =ˢ "")) (
      errorf r (field ⋅ ".token")
        (what ⋅ " is a /64 subnet of the delegation and takes no token; leave it out"))
  check_delegation_source v r field d
  skip

abbrev only_interfaces : String
only_interfaces = "only an Interface's routes may be cut from the delegated prefix"

check_destination :
    Validator → Resource → String → Bool → Option DelegatedPrefixAddr → Check (Unit {0})
unfolding check_derived_subnet
check_destination v r entry derivable none = skip
check_destination v r entry derivable (some d) =
    if derivable
    then check_derived_subnet v r (entry ⋅ ".destination.fromDelegatedPrefix") "a destination" d
    else errorf r (entry ⋅ ".destination") only_interfaces

check_via_source :
    Validator → Resource → String → Bool → Option DelegatedPrefixAddr → Check (Unit {0})
unfolding check_derived_address
check_via_source v r entry derivable none = skip
check_via_source v r entry derivable (some d) =
    if derivable
    then check_derived_address v r (entry ⋅ ".via.fromDelegatedPrefix") d
    else errorf r (entry ⋅ ".via") only_interfaces

check_via : Validator → Resource → String → Bool → Option DerivableAddr → Check (Unit {0})
unfolding check_via_source
check_via v r entry derivable none = skip
check_via v r entry derivable (some a) =
    check_via_source v r entry derivable a.from_delegated_prefix

check_route : Validator → Resource → String → Bool → ℕ → Route → Check (Unit {0})
unfolding required is_valid_prefix check_destination check_via
check_route v r field derivable i route = do
  required r (at field i ⋅ ".destination")
      (is_valid_prefix route.destination.literal || is_some route.destination.from_delegated_prefix)
  check_destination v r (at field i) derivable route.destination.from_delegated_prefix
  check_via v r (at field i) derivable route.via

unfoldable pub check_routes : Validator → Resource → String → List Route → Bool → Check (Unit {0})
unfolding check_route each_at
check_routes v r field routes derivable = each_at (check_route v r field derivable) 0 routes
