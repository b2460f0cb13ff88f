-- ===== src/Config/Checks/Firewall.antt =====
-- internal/config/validate.go, the checks of policy routing, address sets, the firewall and translation.
-- `before` is the resources that stand before the one that is checked.
use regied.Prelude.{
  ℕ, String, Bool, true, false, not, ◌&&◌, Option, none, some, List, [], ◌∷◌, if◌then◌else◌, ◌=ˢ◌,
  ◌⋅◌, quote, is_some, ℤ, ◌=ℤ◌,
}
use regied.Prelude.Logged.{◌>>=◌, ◌>>◌}
use regied.Api.Netip.{addr_text, prefix_text}
use regied.Api.Scalars.{DerivableAddr, DerivablePrefix, family_of, family_ipv6, integer_text}
use regied.Api.Firewall.{
  EgressRoutePolicySpec, IpAddressSetSpec, FirewallZoneSpec, FirewallPolicySpec, FirewallRule,
  SourceNatSpec, policy_family,
}
use regied.Api.Document.{Resource, kind_of, dslite_tunnel, same_kind}
use regied.Config.Model.{Named, resources_of, as_route_policy, as_policy}
use regied.Config.Resolve.{
  Validator, Check, errorf, skip, when, required, each_at, at, resolve_uplink, resolve_zone,
  resolve_link, resolve_address_set,
}
use regied.Config.Checks.Derived.{check_derived_address, check_derived_subnet}

same_priority : Option ℤ → ℤ → Bool
same_priority none n = false
same_priority (some m) n = m =ℤ n

-- the first of the policies before that has the family and the priority
taken_priority :
    String → ℤ → List (Named EgressRoutePolicySpec) → Option (Named EgressRoutePolicySpec)
unfolding same_priority policy_family
taken_priority family n [] = none
taken_priority family n (o ∷ os) =
    let rest = taken_priority family n os in
    if (policy_family o.spec =ˢ family) && same_priority o.spec.priority n then some o else rest

check_priority :
    Resource
    → EgressRoutePolicySpec
    → List (Named EgressRoutePolicySpec)
    → Option ℤ
    → Check (Unit {0})
unfolding taken_priority policy_family integer_text
check_priority r s others none = skip
check_priority r s others (some n) = elim (taken_priority (policy_family s) n others) [
  | none ↦ skip
  | some other ↦ errorf r "spec.priority" (
      "the "
      ⋅ policy_family s
      ⋅ " EgressRoutePolicy "
      ⋅ quote other.name
      ⋅ " already has priority "
      ⋅ integer_text n)
]

unfoldable pub is_empty_list : {A : Type 0} → List A → Bool
is_empty_list [] = true
is_empty_list (x ∷ xs) = false

unfoldable pub check_route_policy :
    Validator → List Resource → Resource → EgressRoutePolicySpec → Check (Unit {0})
unfolding required resolve_uplink is_empty_list each_at resolve_address_set check_priority
    policy_family resources_of as_route_policy
check_route_policy v before r s = do
  required r "spec.priority" (is_some s.priority)
  named ← required r "spec.egressRef" (not (s.egress_ref =ˢ ""))
  when named (do resolve_uplink v r "spec.egressRef" s.egress_ref; skip)
  when (is_empty_list s.source_ranges && is_empty_list s.source_address_set_refs)
      (errorf r "spec" "at least one of sourceRanges and sourceAddressSetRefs is required")
  each_at
      (λ i ref. resolve_address_set v r (at "spec.sourceAddressSetRefs" i) ref (policy_family s)) 0
      s.source_address_set_refs
  check_priority r s (resources_of as_route_policy before) s.priority

check_derived_set_entry : Resource → String → String → String → Check (Unit {0})
check_derived_set_entry r field what family = when (not (family =ˢ family_ipv6)) (
    errorf r field
      (what ⋅ " cut from the delegated prefix is " ⋅ family_ipv6 ⋅ ", and the set is " ⋅ family))

check_set_address : Validator → Resource → String → ℕ → DerivableAddr → Check (Unit {0})
unfolding check_derived_set_entry check_derived_address family_of addr_text
check_set_address v r family i a = elim a.from_delegated_prefix [
  | some d ↦ do
    check_derived_set_entry r (at "spec.addresses" i) "an address" family
    check_derived_address v r (at "spec.addresses" i ⋅ ".fromDelegatedPrefix") d
  | none ↦
      when (not (family_of a.literal =ˢ family))
        (errorf r (at "spec.addresses" i) (addr_text a.literal ⋅ " is not " ⋅ family))
]

check_set_network : Validator → Resource → String → ℕ → DerivablePrefix → Check (Unit {0})
unfolding check_derived_set_entry check_derived_subnet family_of prefix_text
check_set_network v r family i p = elim p.from_delegated_prefix [
  | some d ↦ do
    check_derived_set_entry r (at "spec.networks" i) "a network" family
    check_derived_subnet v r (at "spec.networks" i ⋅ ".fromDelegatedPrefix") "a network" d
  | none ↦
      when (not (family_of p.literal.addr =ˢ family))
        (errorf r (at "spec.networks" i) (prefix_text p.literal ⋅ " is not " ⋅ family))
]

unfoldable pub check_address_set : Validator → Resource → IpAddressSetSpec → Check (Unit {0})
unfolding required is_empty_list each_at check_set_address check_set_network
check_address_set v r s = do
  required r "spec.family" (not (s.family =ˢ ""))
  when (is_empty_list s.addresses && is_empty_list s.networks)
      (errorf r "spec" "at least one of addresses and networks is required")
  when (not (s.family =ˢ "")) (do
    each_at (check_set_address v r s.family) 0 s.addresses
    each_at (check_set_network v r s.family) 0 s.networks)

abbrev pub self_zone : String
self_zone = "self"

unfoldable pub check_zone_link : Validator → Resource → ℕ → String → Check (Unit {0})
unfolding resolve_link
check_zone_link v r i ref = do resolve_link v r (at "spec.linkRefs" i) ref; skip

unfoldable pub reserved_zone : Resource → Check (Unit {0})
reserved_zone r =
    when (r.name =ˢ self_zone)
      (errorf r "metadata.name" (quote self_zone ⋅ " is reserved for the host itself"))

unfoldable pub check_zone : Validator → Resource → FirewallZoneSpec → Check (Unit {0})
unfolding reserved_zone required is_empty_list each_at check_zone_link
check_zone v r s = do
  reserved_zone r
  linked ← required r "spec.linkRefs" (not (is_empty_list s.link_refs))
  when linked (each_at (check_zone_link v r) 0 s.link_refs)

unfoldable pub check_rule : Validator → Resource → ℕ → FirewallRule → Check (Unit {0})
unfolding required each_at resolve_address_set
check_rule v r i rule = do
  required r (at "spec.rules" i ⋅ ".name") (not (rule.name =ˢ ""))
  required r (at "spec.rules" i ⋅ ".action") (not (rule.action =ˢ ""))
  each_at
      (λ j ref.
        resolve_address_set v r (at (at "spec.rules" i ⋅ ".sourceAddressSetRefs") j) ref
          rule.family)
      0 rule.source_address_set_refs
  each_at
      (λ j ref.
        resolve_address_set v r (at (at "spec.rules" i ⋅ ".destinationAddressSetRefs") j) ref
          rule.family)
      0 rule.destination_address_set_refs

-- the first of the policies before that covers the pair
unfoldable pub covering :
    String → String → List (Named FirewallPolicySpec) → Option (Named FirewallPolicySpec)
covering from to [] = none
covering from to (o ∷ os) =
    let rest = covering from to os in
    if (o.spec.from =ˢ from) && (o.spec.to =ˢ to) then some o else rest

unfoldable pub check_pair :
    Resource → FirewallPolicySpec → Option (Named FirewallPolicySpec) → Check (Unit {0})
check_pair r s none = skip
check_pair r s (some other) =
    errorf r "spec"
      ("the FirewallPolicy " ⋅ quote other.name ⋅ " already covers " ⋅ s.from ⋅ " to " ⋅ s.to)

unfoldable pub check_source_zone : Validator → Resource → String → Check (Unit {0})
unfolding resolve_zone
check_source_zone v r from =
    if from =ˢ self_zone
    then errorf r "spec.from" (
        quote self_zone
        ⋅ " cannot be a policy's source: nothing here filters what the host itself sends")
    else (do resolve_zone v r "spec.from" from; skip)

unfoldable pub check_destination_zone : Validator → Resource → String → Bool → Check (Unit {0})
unfolding resolve_zone
check_destination_zone v r to goes =
    when (goes && not (to =ˢ self_zone)) (do resolve_zone v r "spec.to" to; skip)

unfoldable pub check_firewall_policy :
    Validator → List Resource → Resource → FirewallPolicySpec → Check (Unit {0})
unfolding required check_source_zone check_destination_zone each_at check_rule covering check_pair
    resources_of as_policy
check_firewall_policy v before r s = do
  comes ← required r "spec.from" (not (s.from =ˢ ""))
  when comes (check_source_zone v r s.from)
  goes ← required r "spec.to" (not (s.to =ˢ ""))
  check_destination_zone v r s.to goes
  required r "spec.defaultAction" (not (s.default_action =ˢ ""))
  each_at (check_rule v r) 0 s.rules
  check_pair r s (covering s.from s.to (resources_of as_policy before))

-- an uplink that the far end translates for
unfoldable pub is_tunnel : Option Resource → Bool
unfolding kind_of
is_tunnel none = false
is_tunnel (some r) = same_kind (kind_of r.spec) dslite_tunnel

unfoldable pub check_nat_egress : Validator → Resource → String → Check (Unit {0})
unfolding resolve_uplink is_tunnel
check_nat_egress v r egress_ref = do
  uplink ← resolve_uplink v r "spec.egressRef" egress_ref
  when (is_tunnel uplink) (
      errorf r "spec.egressRef" (
        "the DSLiteTunnel "
        ⋅ quote egress_ref
        ⋅ " is translated by the AFTR, so translating here would translate twice"))

unfoldable pub check_source_nat : Validator → Resource → SourceNatSpec → Check (Unit {0})
unfolding required check_nat_egress
check_source_nat v r s = do
  named ← required r "spec.egressRef" (not (s.egress_ref =ˢ ""))
  when named (check_nat_egress v r s.egress_ref)
