-- ===== src/Config/Validate/Meets.antt =====
-- internal/config/validate.go, the checks of the kinds that the firewall is rendered from: what a resource
-- that is not reported refers to is there.
use regied.Prelude.{
  ℕ, Bool, true, false, not, Option, none, some, List, [], ◌∷◌, ◌++◌, String, Bool-cases, ◌≡◌, refl,
  inl, inr, ◌⊎◌, arith, All, ◌=ˢ◌, ◌⋅◌, is_some, All-map,
}
use regied.Api.Firewall.{
  FirewallZoneSpec, FirewallPolicySpec, FirewallRule, SourceNatSpec, PortForwardSpec, ForwardTarget,
}
use regied.Api.Document.{
  Kind, Resource, Spec, firewall_zone, ip_address_set, an_interface, a_session, a_tunnel,
  a_route_policy, an_address_set, a_zone, a_policy, a_source_nat, a_forward, a_dhcp_server,
  a_forwarder, a_record_set,
}
use regied.Config.Model.{Entry, find_entry, resources_of, as_policy}
use regied.Config.Problem.{has_errors}
use regied.Config.Resolve.{
  Validator, required, each_at, when, at, resolve, resolve_link, resolve_zone, resolve_uplink,
  resolve_address_set, link_kinds, uplink_kinds, find_among, exactly_one,
}
use regied.Config.Checks.Firewall.{
  check_zone, check_zone_link, check_firewall_policy, check_source_zone, check_rule,
  check_source_nat, check_nat_egress, reserved_zone, self_zone, is_empty_list,
  check_destination_zone, check_pair, covering,
}
use regied.Config.Checks.Forwards.{
  check_forward, check_forward_egress, check_forward_protocol, check_forward_target,
  check_published,
}
use regied.Config.Validate.{check_spec, check_resource, check_resources}
use regied.Config.Validate.Quiet.{
  Quiet, split, errors_parts, required-Quiet, each_at-Quiet, resolve-Quiet,
}
use regied.Config.Validate.Links.{find_among-uplink}
use regied.Config.Validate.Needs.{IsLink, IsOf, RuleMeets, Meets}

elim_same :
    (o : Option Resource) (r : Resource)
    → (elim o as (λ _. Option Resource) [ some x ↦ some x | none ↦ none ]) ≡ some r
    → o ≡ some r
elim_same none r h = h
elim_same (some x) r h = h

single :
    (kind : Kind) (name : String) (index : List Entry) (r : Resource)
    → find_among (kind ∷ []) name index ≡ some r
    → IsOf kind index name
unfolding find_among
single kind name index r h = (r, elim_same (find_entry kind name index) r h)

module _ (v : Validator) (r : Resource) where
  zone-IsLink : (j : ℕ) (ref : String) → Quiet (check_zone_link v r j ref) → IsLink v.index ref
  unfolding check_zone_link resolve_link
  zone-IsLink j ref h =
      let m = resolve v r (at "spec.linkRefs" j) ref link_kinds "a link" in
      resolve-Quiet v r _ ref link_kinds _ (errors_parts m.reports [] h).0

  check_zone-Meets : (s : FirewallZoneSpec) → Quiet (check_zone v r s) → Meets v.index (a_zone s)
  unfolding check_zone
  check_zone-Meets s h =
      let b = required r "spec.linkRefs" (not (is_empty_list s.link_refs)) in
      let c = when b.value (each_at (check_zone_link v r) 0 s.link_refs) in
      let p = split ((reserved_zone r).reports ∷ b.reports ∷ c.reports ∷ []) h in
      let e = required-Quiet r "spec.linkRefs" (not (is_empty_list s.link_refs)) p.1.0 in
      let loop : Quiet (each_at (check_zone_link v r) 0 s.link_refs) = rw e at p.1.1.0 in
      All-map (λ ref q. zone-IsLink q.0 ref q.1) s.link_refs
        (each_at-Quiet (check_zone_link v r) 0 s.link_refs loop)

  uplink-IsLink :
      (field name : String) → Quiet (resolve_uplink v r field name) → IsLink v.index name
  unfolding resolve_uplink
  uplink-IsLink field name h =
      let q = resolve-Quiet v r field name uplink_kinds "an uplink" h in
      find_among-uplink name v.index q.0 q.1

  check_source_nat-Meets :
      (s : SourceNatSpec) → Quiet (check_source_nat v r s) → Meets v.index (a_source_nat s)
  unfolding check_source_nat check_nat_egress
  check_source_nat-Meets s h =
      let b = required r "spec.egressRef" (not (s.egress_ref =ˢ "")) in
      let p =
        split (b.reports ∷ (when b.value (check_nat_egress v r s.egress_ref)).reports ∷ []) h in
      let e = required-Quiet r "spec.egressRef" (not (s.egress_ref =ˢ "")) p.0 in
      let q : Quiet (check_nat_egress v r s.egress_ref) = rw e at p.1.0 in
      let m = resolve_uplink v r "spec.egressRef" s.egress_ref in
      uplink-IsLink "spec.egressRef" s.egress_ref (errors_parts m.reports _ q).0

  forward_egress :
      (s : PortForwardSpec) → Quiet (check_forward_egress v r s) → IsLink v.index s.egress_ref
  unfolding check_forward_egress check_published
  forward_egress s h =
      let b = required r "spec.egressRef" (not (s.egress_ref =ˢ "")) in
      let p =
        split (b.reports ∷ (when b.value (check_published v r s.egress_ref)).reports ∷ []) h in
      let e = required-Quiet r "spec.egressRef" (not (s.egress_ref =ˢ "")) p.0 in
      let q : Quiet (check_published v r s.egress_ref) = rw e at p.1.0 in
      let m = resolve_uplink v r "spec.egressRef" s.egress_ref in
      uplink-IsLink "spec.egressRef" s.egress_ref (errors_parts m.reports _ q).0

  forward_target :
      (s : PortForwardSpec) (listens : Bool) (o : Option ForwardTarget)
      → Quiet (check_forward_target r s listens o)
      → (t : ForwardTarget) × (o ≡ some t)
  unfolding check_forward_target has_errors
  forward_target s listens none h = absurd (ground arith)
  forward_target s listens (some t) h = (t, refl)

  check_forward-Meets :
      (s : PortForwardSpec) → Quiet (check_forward v r s) → Meets v.index (a_forward s)
  unfolding check_forward
  check_forward-Meets s h =
      let l = exactly_one r "port" "portRange" (is_some s.port) (is_some s.port_range) in
      let p =
        split
          ((check_forward_egress v r s).reports
            ∷ (check_forward_protocol r s.protocol).reports
            ∷ l.reports
            ∷ (check_forward_target r s l.value s.target).reports
            ∷ [])
          h in
      (forward_egress s p.0, forward_target s l.value s.target p.1.1.1.0)

  address_set_of :
      (field ref family : String)
      → Quiet (resolve_address_set v r field ref family)
      → IsOf ip_address_set v.index ref
  unfolding resolve_address_set
  address_set_of field ref family h =
      let m = resolve v r field ref (ip_address_set ∷ []) "an IPAddressSet" in
      let q =
        resolve-Quiet v r field ref (ip_address_set ∷ []) "an IPAddressSet"
          (errors_parts m.reports _ h).0 in
      single ip_address_set ref v.index q.0 q.1

  check_rule-Meets :
      (i : ℕ) (rule : FirewallRule) → Quiet (check_rule v r i rule) → RuleMeets v.index rule
  unfolding check_rule
  check_rule-Meets i rule h =
      let sources = λ (j : ℕ) (ref : String).
        resolve_address_set v r (at (at "spec.rules" i ⋅ ".sourceAddressSetRefs") j) ref
          rule.family in
      let destinations = λ (j : ℕ) (ref : String).
        resolve_address_set v r (at (at "spec.rules" i ⋅ ".destinationAddressSetRefs") j) ref
          rule.family in
      let p =
        split
          ((required r (at "spec.rules" i ⋅ ".name") (not (rule.name =ˢ ""))).reports
            ∷ (required r (at "spec.rules" i ⋅ ".action") (not (rule.action =ˢ ""))).reports
            ∷ (each_at sources 0 rule.source_address_set_refs).reports
            ∷ (each_at destinations 0 rule.destination_address_set_refs).reports
            ∷ [])
          h in
      (
        All-map (λ ref q. address_set_of _ ref rule.family q.1) rule.source_address_set_refs
            (each_at-Quiet sources 0 rule.source_address_set_refs p.1.1.0),
        All-map (λ ref q. address_set_of _ ref rule.family q.1) rule.destination_address_set_refs
            (each_at-Quiet destinations 0 rule.destination_address_set_refs p.1.1.1.0),
      )

  zone_found :
      (field name : String) → Quiet (resolve_zone v r field name) → IsOf firewall_zone v.index name
  unfolding resolve_zone
  zone_found field name h =
      let q = resolve-Quiet v r field name (firewall_zone ∷ []) "a FirewallZone" h in
      single firewall_zone name v.index q.0 q.1

  source_zone :
      (from : String) → Quiet (check_source_zone v r from) → IsOf firewall_zone v.index from
  unfolding check_source_zone has_errors
  source_zone from h = elim (Bool-cases (from =ˢ self_zone)) [
    | inl t ↦ absurd (let c = rw t at h in ground arith)
    | inr f ↦
        let m = resolve_zone v r "spec.from" from in
        let q : has_errors (m.reports ++ []) ≡ false = rw f at h in
        zone_found "spec.from" from (errors_parts m.reports [] q).0
  ]

  destination_zone :
      (to : String)
      → Quiet (check_destination_zone v r to true)
      → ((to =ˢ self_zone) ≡ true) ⊎ IsOf firewall_zone v.index to
  unfolding check_destination_zone
  destination_zone to h = elim (Bool-cases (to =ˢ self_zone)) [
    | inl t ↦ inl t
    | inr f ↦
        let m = resolve_zone v r "spec.to" to in
        let q : has_errors (m.reports ++ []) ≡ false = rw f at h in
        inr (zone_found "spec.to" to (errors_parts m.reports [] q).0)
  ]

  check_firewall_policy-Meets :
      (before : List Resource) (s : FirewallPolicySpec)
      → Quiet (check_firewall_policy v before r s)
      → Meets v.index (a_policy s)
  unfolding check_firewall_policy
  check_firewall_policy-Meets before s h =
      let a = required r "spec.from" (not (s.from =ˢ "")) in
      let c = required r "spec.to" (not (s.to =ˢ "")) in
      let p =
        split
          (a.reports
            ∷ (when a.value (check_source_zone v r s.from)).reports
            ∷ c.reports
            ∷ (check_destination_zone v r s.to c.value).reports
            ∷ (required r "spec.defaultAction" (not (s.default_action =ˢ ""))).reports
            ∷ (each_at (check_rule v r) 0 s.rules).reports
            ∷ (check_pair r s (covering s.from s.to (resources_of as_policy before))).reports
            ∷ [])
          h in
      let e = required-Quiet r "spec.from" (not (s.from =ˢ "")) p.0 in
      let g = required-Quiet r "spec.to" (not (s.to =ˢ "")) p.1.1.0 in
      let from : Quiet (check_source_zone v r s.from) = rw e at p.1.0 in
      let to : Quiet (check_destination_zone v r s.to true) = rw g at p.1.1.1.0 in
      (
        source_zone s.from from,
        destination_zone s.to to,
        All-map (λ rule q. check_rule-Meets q.0 rule q.1) s.rules
            (each_at-Quiet (check_rule v r) 0 s.rules p.1.1.1.1.1.0),
      )

  check_spec-Meets :
      (before : List Resource) (s : Spec) → Quiet (check_spec v before r s) → Meets v.index s
  unfolding check_spec
  check_spec-Meets before (a_zone s) h = check_zone-Meets s h
  check_spec-Meets before (a_policy s) h = check_firewall_policy-Meets before s h
  check_spec-Meets before (a_source_nat s) h = check_source_nat-Meets s h
  check_spec-Meets before (a_forward s) h = check_forward-Meets s h
  check_spec-Meets before (an_interface s) h = tt
  check_spec-Meets before (a_session s) h = tt
  check_spec-Meets before (a_tunnel s) h = tt
  check_spec-Meets before (a_route_policy s) h = tt
  check_spec-Meets before (an_address_set s) h = tt
  check_spec-Meets before (a_dhcp_server s) h = tt
  check_spec-Meets before (a_forwarder s) h = tt
  check_spec-Meets before (a_record_set s) h = tt

-- Every resource of a document whose resources are not reported.
pub check_resources-Meets :
    (v : Validator) (before rs : List Resource)
    → Quiet (check_resources v before rs)
    → All (λ r. Meets v.index r.spec) rs
unfolding check_resources check_resource
check_resources-Meets v before [] h = tt
check_resources-Meets v before (r ∷ rs) h =
    let p = errors_parts (check_resource v before r).reports _ h in
    (check_spec-Meets v r before r.spec p.0, check_resources-Meets v (before ++ r ∷ []) rs p.1)
