-- ===== src/Config/Validate.antt =====
-- internal/config/validate.go, Validate as a whole: the checks in their order, and the configuration that
-- follows from a document that passes. What the derivation reports is kept as it is in `Derive`.
pub mod Quiet
pub mod Passed
pub mod Indexed
pub mod Listening
pub mod Overlaps
pub mod Ports
mod Examples
pub mod Routed
pub mod Needs
pub mod Meets
pub mod Links
use regied.Prelude.{
  ℕ, String, Bool, true, false, not, ◌&&◌, ◌||◌, Option, none, some, List, [], ◌∷◌, ◌++◌, map,
  if◌then◌else◌, ◌=ˢ◌, ◌⋅◌, quote,
}
use regied.Prelude.Logged.{Logged, ◌>>=◌, ◌>>◌, pure, log}
use regied.Api.Netip.{Addr, no_addr, addr4, addr6}
use regied.Api.Firewall.{EgressRoutePolicySpec, PortForwardSpec, ForwardTarget}
use regied.Api.Document.{
  Resource, Spec, NetworkConfig, Kind, an_interface, a_session, a_tunnel, a_route_policy,
  an_address_set, a_zone, a_policy, a_source_nat, a_forward, a_dhcp_server, a_forwarder,
  a_record_set, egress_route_policy, dns_forwarder, source_validation_enabled,
}
use regied.Config.Derive.{Policy, PinProblem, pin_all, pin_start}
use regied.Config.Returns.{Forward, Address, invalid, v4, v6, derive_routing}
use regied.Config.Model.{Config, Named, by_kind, resources_of, as_route_policy, as_forward}
use regied.Config.Problem.{Problem, has_errors, warnings}
use regied.Config.Resolve.{Validator, Check, document_error, errorf, skip, when, build_index}
use regied.Config.Checks.Links.{check_interface}
use regied.Config.Checks.Uplinks.{check_session, check_tunnel}
use regied.Config.Checks.Firewall.{
  check_route_policy, check_address_set, check_zone, check_firewall_policy, check_source_nat,
  is_empty_list,
}
use regied.Config.Checks.Forwards.{check_forward, check_overlaps}
use regied.Config.Checks.Serving.{check_dhcp_server, check_dns_forwarder}
use regied.Config.Checks.Records.{check_record_set, check_duplicate_records}
use regied.Config.Checks.Names.{check_link_names, check_bridge_members}
use regied.Config.Checks.Cycles.{check_derivation_cycles}

unfoldable pub check_document : NetworkConfig → Check (Unit {0})
unfolding is_empty_list by_kind
check_document d = do
  when (d.name =ˢ "") (document_error "metadata.name" "required")
  when
      (source_validation_enabled d.global
        && not (is_empty_list (by_kind egress_route_policy d.resources)))
      (document_error "spec.global.sourceValidation"
        "cannot be true while an EgressRoutePolicy is declared: policy routing makes return paths asymmetric, and reverse path filtering drops exactly that traffic")

more_forwarders : String → List Resource → Check (Unit {0})
more_forwarders first [] = skip
more_forwarders first (r ∷ rs) = do
  errorf r "" (
      "a host has at most one DNSForwarder, and "
      ⋅ quote first
      ⋅ " is already declared: one dnsmasq serves the host, and it has one cache and one set of upstreams")
  more_forwarders first rs

singleton_of : List Resource → Check (Unit {0})
unfolding more_forwarders
singleton_of [] = skip
singleton_of (r ∷ rs) = more_forwarders r.name rs

unfoldable pub check_singletons : List Resource → Check (Unit {0})
unfolding singleton_of by_kind
check_singletons order = singleton_of (by_kind dns_forwarder order)

check_spec : Validator → List Resource → Resource → Spec → Check (Unit {0})
unfolding check_interface check_session check_tunnel check_route_policy check_address_set check_zone
    check_firewall_policy check_source_nat check_forward check_dhcp_server check_dns_forwarder
    check_record_set
check_spec v before r (an_interface s) = check_interface v r s
check_spec v before r (a_session s) = check_session v r s
check_spec v before r (a_tunnel s) = check_tunnel v r s
check_spec v before r (a_route_policy s) = check_route_policy v before r s
check_spec v before r (an_address_set s) = check_address_set v r s
check_spec v before r (a_zone s) = check_zone v r s
check_spec v before r (a_policy s) = check_firewall_policy v before r s
check_spec v before r (a_source_nat s) = check_source_nat v r s
check_spec v before r (a_forward s) = check_forward v r s
check_spec v before r (a_dhcp_server s) = check_dhcp_server v r s
check_spec v before r (a_forwarder s) = check_dns_forwarder v r s
check_spec v before r (a_record_set s) = check_record_set v r s

unfoldable pub check_resource : Validator → List Resource → Resource → Check (Unit {0})
unfolding check_spec
check_resource v before r = check_spec v before r r.spec

-- the loop over the resources, with those that came before
unfoldable pub check_resources : Validator → List Resource → List Resource → Check (Unit {0})
unfolding check_resource
check_resources v before [] = skip
check_resources v before (r ∷ rs) = do
  check_resource v before r
  check_resources v (before ++ r ∷ []) rs

-- what deriveRouting reads of a policy and of a forward
unfoldable pub policy_of : Named EgressRoutePolicySpec → Policy
policy_of n = record {
  name = n.name;
  family = n.spec.family;
  priority = n.spec.priority;
  table = n.spec.table;
  mark = n.spec.mark;
}

unfoldable pub address_of : Addr → Address
address_of no_addr = invalid
address_of (addr4 n) = v4
address_of (addr6 n zone) = v6

target_of : Option ForwardTarget → Option Address
unfolding address_of
target_of none = none
target_of (some t) = some (address_of t.address)

unfoldable pub forward_of : Named PortForwardSpec → Forward
unfolding target_of
forward_of n = record { egress_ref = n.spec.egress_ref; target = target_of n.spec.target }

unfoldable pub policies_of : List Resource → List Policy
unfolding policy_of resources_of as_route_policy
policies_of order = map policy_of (resources_of as_route_policy order)

unfoldable pub forwards_of : List Resource → List Forward
unfolding forward_of resources_of as_forward
forwards_of order = map forward_of (resources_of as_forward order)

-- all the checks, over the index
unfoldable pub check_all : Validator → Check (Unit {0})
unfolding check_document check_singletons check_resources check_link_names check_duplicate_records
    check_overlaps check_bridge_members check_derivation_cycles
check_all v = do
  check_document v.document
  check_singletons v.document.resources
  check_resources v [] v.document.resources
  check_link_names v.document.resources
  check_duplicate_records 0 [] v.document.resources
  check_overlaps [] v.document.resources
  check_bridge_members v.document.resources
  check_derivation_cycles v.document.resources
  skip

pub data Validated : Type 0 where
  valid : Config → Validated
  refused : List Problem → List PinProblem → Validated

unfoldable pub validator_of : (String → Option String) → NetworkConfig → Validator
unfolding build_index
validator_of files d = record {
  document = d;
  files = files;
  index = (build_index [] d.resources).value;
}

unfoldable pub problems_of : Validator → List Problem
unfolding build_index check_all
problems_of v = (build_index [] v.document.resources).reports ++ (check_all v).reports

unfoldable pub pin_problems_of : NetworkConfig → List PinProblem
unfolding pin_all policies_of
pin_problems_of d = (pin_all pin_start (policies_of d.resources)).problems

unfoldable pub config_of : Validator → Config
unfolding derive_routing policies_of forwards_of problems_of warnings
config_of v = record {
  document = v.document;
  index = v.index;
  routing =
      (derive_routing (policies_of v.document.resources) (forwards_of v.document.resources)).0;
  returns =
      (derive_routing (policies_of v.document.resources) (forwards_of v.document.resources)).1;
  warnings = warnings (problems_of v);
}

-- Validate; `files` says why a secret file cannot be used
unfoldable pub validate : (String → Option String) → NetworkConfig → Validated
unfolding validator_of problems_of pin_problems_of config_of has_errors is_empty_list
validate files d =
    let v = validator_of files d in
    if has_errors (problems_of v) || not (is_empty_list (pin_problems_of d))
    then refused (problems_of v) (pin_problems_of d)
    else valid (config_of v)
