-- ===== src/Config/Checks/Links.antt =====
-- internal/config/validate.go, the checks of an interface.
use regied.Prelude.{
  ℕ, ◌+◌, String, Bool, true, false, not, ◌&&◌, ◌||◌, Option, none, some, List, [], ◌∷◌, mem,
  length, if◌then◌else◌, ◌==◌, ◌=ˢ◌, ◌⋅◌, quote, is_some, ltb, ℤ, pos, negsuc,
}
use regied.Prelude.Logged.{◌>>=◌, ◌>>◌, pure}
use regied.Api.Scalars.{DelegatedPrefixAddr, integer_text}
use regied.Api.Link.{
  InterfaceSpec, InterfaceAddress, InterfaceIpv6, RouterAdvertisement, RouterAdvertisementAddr,
  AdvertisedDelegation, PrefixDelegation, is_literal, advertised_delegation_of, client_of,
}
use regied.Api.Document.{Resource}
use regied.Config.Resolve.{
  Validator, Check, errorf, warnf, skip, when, required, required_, at, check_file,
}
use regied.Config.Checks.Derived.{check_delegation_source, check_token, check_routes}

-- an address taken from the router advertisement; `seen` says that one came before
check_advertised : Resource → String → Bool → RouterAdvertisementAddr → Check (Unit {0})
unfolding check_token
check_advertised r field seen a = do
  when seen (
      errorf r (field ⋅ ".fromRouterAdvertisement")
        "an Interface takes at most one token from the router advertisement")
  check_token r (field ⋅ ".fromRouterAdvertisement.token") a.token

unwritable : Option InterfaceSpec → DelegatedPrefixAddr → Bool
unfolding advertised_delegation_of
unwritable none d = false
unwritable (some upstream) d = is_some (advertised_delegation_of upstream) && (d.token =ˢ "")

check_delegated : Validator → Resource → String → Option DelegatedPrefixAddr → Check (Unit {0})
unfolding check_delegation_source unwritable
check_delegated v r field none = skip
check_delegated v r field (some d) = do
  upstream ← check_delegation_source v r (field ⋅ ".fromDelegatedPrefix") d
  when (unwritable upstream d) (
      errorf r (field ⋅ ".fromDelegatedPrefix.token") (
        "the Interface "
        ⋅ quote d.interface_ref
        ⋅ " is advertised its prefix rather than delegated one, so this address is written as the value it resolves to and needs a token"))

-- one round of the loop over the addresses, with whether one was advertised so far
check_address : Validator → Resource → String → Bool → InterfaceAddress → Check Bool
unfolding check_advertised check_delegated is_literal
check_address v r field seen a =
    if is_literal a then pure seen else elim a.from_router_advertisement [
      | some advertised ↦ do check_advertised r field seen advertised; pure true
      | none ↦ do check_delegated v r field a.from_delegated_prefix; pure seen
    ]

check_addresses : Validator → Resource → ℕ → Bool → List InterfaceAddress → Check Bool
unfolding check_address
check_addresses v r i seen [] = pure seen
check_addresses v r i seen (a ∷ rest) = do
  seen' ← check_address v r (at "spec.addresses" i) seen a
  check_addresses v r (i + 1) seen' rest

-- below 1 or above 64
bad_length : ℤ → Bool
bad_length (pos n) = n == 0 || ltb 64 n
bad_length (negsuc n) = true

check_length : Resource → String → Option ℤ → Check (Unit {0})
unfolding required bad_length integer_text
check_length r field none = required_ r field false
check_length r field (some n) =
    when (bad_length n) (
      errorf r field
        (integer_text n ⋅ " is not the length of a delegation; it is between 1 and 64"))

check_advertised_delegation :
    Resource → InterfaceSpec → Bool → Option AdvertisedDelegation → Check (Unit {0})
unfolding check_length
check_advertised_delegation r s from_advertisement none = skip
check_advertised_delegation r s from_advertisement (some a) = do
  check_length r "spec.ipv6.advertisedDelegation.prefixLength" a.prefix_length
  when (not from_advertisement) (
      errorf r "spec.ipv6.advertisedDelegation"
        "the advertised prefix is read from the address taken from the router advertisement, and this Interface declares none; add a fromRouterAdvertisement address")
  when (is_some (client_of s.dhcpv6)) (
      errorf r "spec.ipv6.advertisedDelegation"
        "this Interface runs a prefix-delegation client, which is where its delegation comes from; declare one or the other")

-- the modes that are listed, without repetition
check_modes : Resource → List String → List String → Check (List String)
check_modes r seen [] = pure seen
check_modes r seen (m ∷ ms) =
    let again = check_modes r seen ms in
    let first = check_modes r (m ∷ seen) ms in
    if mem m seen
    then (do errorf r "spec.wakeOnLan" (quote m ⋅ " is listed twice"); again)
    else first

check_wake_on_lan : Resource → InterfaceSpec → Option (List String) → Check (Unit {0})
unfolding check_modes
check_wake_on_lan r s none = skip
check_wake_on_lan r s (some []) =
    errorf r "spec.wakeOnLan" "names no mode; write \"off\" to turn Wake-on-LAN off"
check_wake_on_lan r s (some (m ∷ ms)) = do
  when (is_some s.bridge) (errorf r "spec.wakeOnLan" "a bridge has no NIC to wake")
  seen ← check_modes r [] (m ∷ ms)
  when (mem "off" seen && ltb 1 (length seen)) (
      errorf r "spec.wakeOnLan"
        "\"off\" turns Wake-on-LAN off and cannot be listed with other modes")
  when (mem "secureon" seen) (
      warnf r "spec.wakeOnLan"
        "secureon is set with no password; the NIC keeps whatever SecureOn password it already holds, and there is no field for one")

check_client : Validator → Resource → Option PrefixDelegation → Check (Unit {0})
unfolding required check_file
check_client v r none = skip
check_client v r (some d) = do
  required r "spec.dhcpv6.prefixDelegation.prefixLength" (is_some d.prefix_length)
  (if d.duid_file =ˢ ""
      then warnf r "spec.dhcpv6.prefixDelegation.duidFile"
          "not set; networkd will send a DUID of its own, and a host replacing one that already holds a delegation will be delegated a different prefix"
      else check_file v r "spec.dhcpv6.prefixDelegation.duidFile" d.duid_file)

abbrev pub advertise_of : Option InterfaceIpv6 → Option RouterAdvertisement
advertise_of none = none
advertise_of (some ipv6) = ipv6.advertise

check_advertise : Resource → Option RouterAdvertisement → Check (Unit {0})
unfolding required
check_advertise r none = skip
check_advertise r (some a) = required_ r "spec.ipv6.advertise.mode" (not (a.mode =ˢ ""))

unfoldable pub check_interface : Validator → Resource → InterfaceSpec → Check (Unit {0})
unfolding required check_addresses check_advertised_delegation advertised_delegation_of check_routes
    check_client check_advertise check_wake_on_lan
check_interface v r s = do
  required r "spec.ifname" (not (s.ifname =ˢ ""))
  from_advertisement ← check_addresses v r 0 false s.addresses
  check_advertised_delegation r s from_advertisement (advertised_delegation_of s)
  check_routes v r "spec.routes" s.routes true
  check_client v r (client_of s.dhcpv6)
  check_advertise r (advertise_of s.ipv6)
  check_wake_on_lan r s s.wake_on_lan
