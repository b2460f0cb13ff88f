-- ===== src/Config/Checks/Uplinks.antt =====
-- internal/config/validate.go, the checks of the uplinks: sessions and tunnels.
use regied.Prelude.{
  String, Bool, false, not, ◌&&◌, Option, none, some, List, [], ◌∷◌, length, if◌then◌else◌, ◌=ˢ◌,
  ◌⋅◌, quote, is_some, decimal,
}
use regied.Prelude.Logged.{◌>>=◌, ◌>>◌}
use regied.Api.Netip.{is6}
use regied.Api.Scalars.{DelegatedPrefixAddr}
use regied.Api.Link.{
  InterfaceSpec, InterfaceAddress, LocalAddressFrom, PppoeSessionSpec, DsliteTunnelSpec, is_literal,
}
use regied.Api.Document.{Resource}
use regied.Config.Model.{as_interface}
use regied.Config.Resolve.{
  Validator, Check, errorf, skip, when, required, exactly_one, check_file, resolve_interface,
}
use regied.Config.Checks.Derived.{check_routes, spec_of}

-- a field that names a secret file
unfoldable pub check_secret : Validator → Resource → String → String → Check (Unit {0})
unfolding required check_file
check_secret v r field path = do
  present ← required r field (not (path =ˢ ""))
  when present (check_file v r field path)

unfoldable pub check_session : Validator → Resource → PppoeSessionSpec → Check (Unit {0})
unfolding required resolve_interface check_secret check_routes
check_session v r s = do
  named ← required r "spec.interfaceRef" (not (s.interface_ref =ˢ ""))
  when named (do resolve_interface v r "spec.interfaceRef" s.interface_ref; skip)
  check_secret v r "spec.userIDFile" s.user_id_file
  check_secret v r "spec.passwordFile" s.password_file
  check_routes v r "spec.routes" s.routes false

-- the addresses that are not literal IPv4
ipv6_addresses : List InterfaceAddress → List InterfaceAddress
unfolding is_literal is6
ipv6_addresses [] = []
ipv6_addresses (a ∷ rest) =
    let others = ipv6_addresses rest in
    if is_literal a && not (is6 a.literal.addr) then others else a ∷ others

tokenless : Option DelegatedPrefixAddr → Bool
tokenless none = false
tokenless (some d) = d.token =ˢ ""

-- why an interface with these addresses cannot lend the tunnel its own
no_tunnel_address : String → List InterfaceAddress → Option String
unfolding tokenless
no_tunnel_address name [] =
    some ("the Interface " ⋅ quote name ⋅ " declares no IPv6 address for the tunnel to send from")
no_tunnel_address name (a ∷ []) =
    if is_some a.from_router_advertisement
    then some (
        "the Interface "
        ⋅ quote name
        ⋅ " takes its IPv6 address from the router advertisement, which is a host behind a router, not one that runs a tunnel")
    else if tokenless a.from_delegated_prefix
    then some (
        "the Interface "
        ⋅ quote name
        ⋅ " derives its IPv6 address without a token, so the address is networkd's to choose and cannot be written into the tunnel; give it a token")
    else none
no_tunnel_address name (a ∷ b ∷ more) = some (
    "the Interface "
    ⋅ quote name
    ⋅ " declares "
    ⋅ decimal (length (a ∷ b ∷ more))
    ⋅ " IPv6 addresses, and which one the tunnel sends from is not stated")

check_tunnel_local_address : Resource → String → Option InterfaceSpec → Check (Unit {0})
unfolding no_tunnel_address ipv6_addresses
check_tunnel_local_address r name none = skip
check_tunnel_local_address r name (some s) =
    elim (no_tunnel_address name (ipv6_addresses s.addresses)) [
      | none ↦ skip
      | some message ↦ errorf r "spec.localAddressFrom.interfaceRef" message
    ]

check_local_address :
    Validator → Resource → DsliteTunnelSpec → Option LocalAddressFrom → Check (Unit {0})
unfolding required resolve_interface check_tunnel_local_address as_interface
check_local_address v r s none = skip
check_local_address v r s (some from) = do
  stated ← required r "spec.localAddressFrom.interfaceRef" (not (from.interface_ref =ˢ ""))
  when stated (do
    named ← resolve_interface v r "spec.localAddressFrom.interfaceRef" from.interface_ref
    when (not (from.interface_ref =ˢ s.underlay_ref))
        (check_tunnel_local_address r from.interface_ref (spec_of named)))

unfoldable pub check_tunnel : Validator → Resource → DsliteTunnelSpec → Check (Unit {0})
unfolding required resolve_interface exactly_one check_local_address check_routes
check_tunnel v r s = do
  named ← required r "spec.underlayRef" (not (s.underlay_ref =ˢ ""))
  when named (do resolve_interface v r "spec.underlayRef" s.underlay_ref; skip)
  one ←
      exactly_one r "localAddressFrom" "localAddress" (is_some s.local_address_from)
        (is_some s.local_address)
  when one (check_local_address v r s s.local_address_from)
  exactly_one r "aftrHost" "aftrAddress" (not (s.aftr_host =ˢ "")) (is_some s.aftr_address)
  check_routes v r "spec.routes" s.routes false
