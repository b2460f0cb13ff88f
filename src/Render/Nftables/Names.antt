-- ===== src/Render/Nftables/Names.antt =====
-- internal/render/nftables/render.go, the names: what the kernel and nftables know a resource by.
use regied.Prelude.{
  String, Bool, true, false, Option, none, some, [], ◌∷◌, if◌then◌else◌, ◌⋅◌, quote,
}
use regied.Prelude.Logged.{Logged, pure, log}
use regied.Api.Document.{Resource, interface, pppoe_session, dslite_tunnel, firewall_zone}
use regied.Config.Model.{Config, lookup, as_interface}
use regied.Render.Nftables.Matches.{zone_set_prefix, is_identifier}

-- failf
abbrev pub fail : String → Logged String (Unit {0})
fail message = log message

abbrev pub naming_problem : String → String → String
naming_problem kind name =
    "the "
    ⋅ kind
    ⋅ " named "
    ⋅ quote name
    ⋅ " cannot be used as an nftables name: letters, digits and _ . / - only"

unfoldable pub identifier : String → String → String → Logged String String
identifier prefix kind name =
    if is_identifier name
    then pure (prefix ⋅ name)
    else record { value = prefix ⋅ name; reports = naming_problem kind name ∷ [] }

abbrev pub is_found : {A : Type 0} → Option A → Bool
is_found none = false
is_found (some a) = true

-- zoneSet
unfoldable pub zone_set : Config → String → Option (Logged String String)
unfolding identifier
zone_set c name =
    if is_found (lookup c firewall_zone name)
    then some (identifier zone_set_prefix "FirewallZone" name)
    else none

abbrev pub ifname_of : Option Resource → Option String
ifname_of none = none
ifname_of (some r) = elim (as_interface r.spec) [ none ↦ none | some s ↦ some s.ifname ]

-- linkName: an interface's by its spec, a session's and a tunnel's their own
unfoldable pub link_name : Config → String → Option String
unfolding as_interface
link_name c ref = elim (ifname_of (lookup c interface ref)) [
  | some ifname ↦ some ifname
  | none ↦
      if is_found (lookup c pppoe_session ref)
      then some ref
      else if is_found (lookup c dslite_tunnel ref)
      then some ref
      else none
]
