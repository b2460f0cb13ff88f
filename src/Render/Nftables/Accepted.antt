-- ===== src/Render/Nftables/Accepted.antt =====
-- internal/render/nftables/render.go, chain by chain: nothing but a name is reported where what is looked
-- up is there.
use regied.Prelude.{
  true, some, List, [], ◌∷◌, ◌++◌, String, if-cases, Option-cases, ◌≡◌, refl, inl, inr, arith, All,
  All-append, ◌=ˢ◌, ◌⋅◌, is_some,
}
use regied.Prelude.Logged.{Logged, pure, each}
use regied.Api.Firewall.{
  FirewallZoneSpec, FirewallPolicySpec, FirewallRule, SourceNatSpec, PortForwardSpec,
  EgressRoutePolicySpec, IpAddressSetSpec,
}
use regied.Api.Netip.{Prefix}
use regied.Api.Scalars.{family_ipv4, family_ipv6}
use regied.Api.Document.{firewall_zone, ip_address_set, kind_text}
use regied.Config.Returns.{ForwardReturn}
use regied.Config.Model.{Config, Named, lookup, policy_routing, as_address_set}
use regied.Config.Validate.Links.{IsKinded}
use regied.Config.Validate.Needs.{IsLink, IsOf, RuleMeets, PolicyMeets, ForwardMeets}
use regied.Render.Nftables.Matches.{
  zone_set_prefix, policy_chain_prefix, address_set_prefix, uplink_set_prefix, prefix_values,
  family_header, set_of,
}
use regied.Render.Nftables.Names.{identifier, zone_set}
use regied.Render.Nftables.Sets.{
  zone_element, zone_set_of, address_set_of, Uplink, uplink_set_of, uplink_sets_of,
}
use regied.Render.Nftables.Policies.{
  AddressMatch, cidr_match, set_match, address_alternatives, firewall_rule, one_rule, policy_chain,
}
use regied.Render.Nftables.Marks.{save_rule, return_rules, policy_marks}
use regied.Render.Nftables.Translation.{forward_dnat, dnat_rules, source_nat_rules}
use regied.Render.Nftables.Filter.{
  Dispatch, dispatch, from_zone, to_zone, dispatch_all, filter_chains, self_zone,
}
use regied.Render.Nftables.Accepts.{
  IsNaming, NamesOnly, identifier-NamesOnly, each-NamesOnly, link_name-IsLink,
}

pub address_set-NamesOnly : (n : Named IpAddressSetSpec) → NamesOnly (address_set_of n)
unfolding address_set_of
address_set-NamesOnly n =
    All-append IsNaming _ [] (identifier-NamesOnly address_set_prefix "IPAddressSet" n.name) tt

pub uplink_sets-NamesOnly : (u : Uplink) → NamesOnly (uplink_sets_of u)
unfolding uplink_sets_of uplink_set_of
uplink_sets-NamesOnly u =
    each-NamesOnly (λ _. Unit {0}) (uplink_set_of u)
      (λ family _.
        All-append IsNaming _ []
          (identifier-NamesOnly (uplink_set_prefix family) (kind_text u.kind) u.name) tt)
      (family_ipv4 ∷ family_ipv6 ∷ []) (tt, (tt, tt))

module _ (c : Config) (kinded : All IsKinded c.index) where
  zone_element-NamesOnly :
      (zone ref : String) → IsLink c.index ref → NamesOnly (zone_element c zone ref)
  unfolding zone_element
  zone_element-NamesOnly zone ref h =
      let n = link_name-IsLink c kinded ref h in rw (n.1, zone_element) tt

  pub zone_set_of-NamesOnly :
      (z : Named FirewallZoneSpec)
      → All (IsLink c.index) z.spec.link_refs
      → NamesOnly (zone_set_of c z)
  unfolding zone_set_of
  zone_set_of-NamesOnly z h =
      All-append IsNaming (each (zone_element c z.name) z.spec.link_refs).reports _
        (each-NamesOnly (IsLink c.index) (zone_element c z.name) (zone_element-NamesOnly z.name)
          z.spec.link_refs h)
        (All-append IsNaming _ [] (identifier-NamesOnly zone_set_prefix "FirewallZone" z.name) tt)

  cidr_match-NamesOnly :
      (side : String) (cidrs : List Prefix) (family : String)
      → NamesOnly (cidr_match side cidrs family)
  unfolding cidr_match
  cidr_match-NamesOnly side cidrs family =
      elim (prefix_values family cidrs)
        as (λ values. NamesOnly (elim values as (λ _. Logged String (List AddressMatch)) [
          | [] ↦ pure []
          | v ∷ vs ↦ pure (
              record {
                family = family;
                text = family_header family ⋅ " " ⋅ side ⋅ " " ⋅ set_of (v ∷ vs);
              }
              ∷ [])
        ])) [ [] ↦ tt | v ∷ vs ↦ tt ]

  set_match-NamesOnly :
      (side ref : String)
      → IsOf ip_address_set c.index ref
      → NamesOnly (set_match side ref (lookup c ip_address_set ref))
  unfolding set_match lookup
  set_match-NamesOnly side ref h = rw (h.1) (elim (Option-cases (as_address_set h.0.spec)) [
    | inl e ↦ rw (e, set_match) tt
    | inr (s, e) ↦ rw (e, set_match) tt
  ])

  alternatives-NamesOnly :
      (side : String) (cidrs : List Prefix) (refs : List String)
      → All (IsOf ip_address_set c.index) refs
      → NamesOnly (address_alternatives c side cidrs refs)
  unfolding address_alternatives
  alternatives-NamesOnly side cidrs refs h =
      All-append IsNaming (each (cidr_match side cidrs) (family_ipv4 ∷ family_ipv6 ∷ [])).reports _
        (each-NamesOnly (λ _. Unit {0}) (cidr_match side cidrs)
          (λ family _. cidr_match-NamesOnly side cidrs family) (family_ipv4 ∷ family_ipv6 ∷ [])
          (tt, (tt, tt)))
        (All-append IsNaming _ []
          (each-NamesOnly (IsOf ip_address_set c.index)
            (λ ref. set_match side ref (lookup c ip_address_set ref)) (set_match-NamesOnly side)
            refs h)
          tt)

  one_rule-NamesOnly :
      (policy : String) (rule : FirewallRule)
      → RuleMeets c.index rule
      → NamesOnly (one_rule c policy rule)
  unfolding one_rule firewall_rule
  one_rule-NamesOnly policy rule h =
      let sources = address_alternatives c "saddr" rule.source_cidrs rule.source_address_set_refs in
      let destinations =
        address_alternatives c "daddr" rule.destination_cidrs rule.destination_address_set_refs in
      All-append IsNaming (sources.reports ++ (destinations.reports ++ [])) []
        (All-append IsNaming sources.reports _
          (alternatives-NamesOnly "saddr" rule.source_cidrs rule.source_address_set_refs h.0)
          (All-append IsNaming destinations.reports []
            (alternatives-NamesOnly "daddr" rule.destination_cidrs rule.destination_address_set_refs
              h.1)
            tt))
        tt

  pub policy_chain-NamesOnly :
      (p : Named FirewallPolicySpec) → PolicyMeets c.index p.spec → NamesOnly (policy_chain c p)
  unfolding policy_chain
  policy_chain-NamesOnly p h =
      All-append IsNaming (each (one_rule c p.name) p.spec.rules).reports _
        (each-NamesOnly (RuleMeets c.index) (one_rule c p.name) (one_rule-NamesOnly p.name)
          p.spec.rules h.2)
        (All-append IsNaming _ [] (identifier-NamesOnly policy_chain_prefix "FirewallPolicy" p.name)
          tt)

  save_rule-NamesOnly : (r : ForwardReturn) → IsLink c.index r.uplink → NamesOnly (save_rule c r)
  unfolding save_rule
  save_rule-NamesOnly r h = let n = link_name-IsLink c kinded r.uplink h in rw (n.1, save_rule) tt

  pub return_rules-NamesOnly :
      (rs : List ForwardReturn)
      → All (λ r. IsLink c.index r.uplink) rs
      → NamesOnly (return_rules c rs)
  unfolding return_rules
  return_rules-NamesOnly [] h = tt
  return_rules-NamesOnly (r ∷ rs) h =
      All-append IsNaming (each (save_rule c) (r ∷ rs)).reports []
        (each-NamesOnly (λ r'. IsLink c.index r'.uplink) (save_rule c) save_rule-NamesOnly (r ∷ rs)
          h)
        tt

  pub policy_marks-NamesOnly :
      (p : Named EgressRoutePolicySpec)
      → is_some (policy_routing c p.name) ≡ true
      → NamesOnly (policy_marks c p)
  unfolding policy_marks
  policy_marks-NamesOnly p h = elim (Option-cases (policy_routing c p.name)) [
    | inl e ↦ absurd (let no = rw e at h in ground arith)
    | inr (d, e) ↦ rw (e, policy_marks) tt
  ]

  pub forward_dnat-NamesOnly :
      (f : Named PortForwardSpec) → ForwardMeets c.index f.spec → NamesOnly (forward_dnat c f)
  unfolding forward_dnat dnat_rules
  forward_dnat-NamesOnly f h =
      let n = link_name-IsLink c kinded f.spec.egress_ref h.0 in
      rw (n.1, forward_dnat) (rw (h.1.1, dnat_rules) tt)

  pub source_nat-NamesOnly :
      (n : Named SourceNatSpec)
      → IsLink c.index n.spec.egress_ref
      → NamesOnly (source_nat_rules c n)
  unfolding source_nat_rules
  source_nat-NamesOnly n h =
      let l = link_name-IsLink c kinded n.spec.egress_ref h in rw (l.1, source_nat_rules) tt

  zone_set-found :
      (name : String)
      → IsOf firewall_zone c.index name
      → zone_set c name ≡ some (identifier zone_set_prefix "FirewallZone" name)
  unfolding zone_set lookup
  zone_set-found name h = rw (h.1) refl

  to_zone-NamesOnly :
      (p : Named FirewallPolicySpec) (chain from : String)
      → IsOf firewall_zone c.index p.spec.to
      → NamesOnly (to_zone p chain from (zone_set c p.spec.to))
  unfolding to_zone
  to_zone-NamesOnly p chain from h =
      rw (zone_set-found p.spec.to h) (
        All-append IsNaming _ [] (identifier-NamesOnly zone_set_prefix "FirewallZone" p.spec.to) tt)

  pub dispatch-NamesOnly :
      (p : Named FirewallPolicySpec) → PolicyMeets c.index p.spec → NamesOnly (dispatch c p)
  unfolding dispatch from_zone
  dispatch-NamesOnly p h = rw (zone_set-found p.spec.from h.0) (
      All-append IsNaming _ _ (identifier-NamesOnly policy_chain_prefix "FirewallPolicy" p.name) (
        All-append IsNaming _ _ (identifier-NamesOnly zone_set_prefix "FirewallZone" p.spec.from)
          (elim (h.1) [
            | inl t ↦ rw t tt
            | inr found ↦
                if-cases {A = Logged String Dispatch} NamesOnly (p.spec.to =ˢ self_zone) _ _
                  (λ t. tt) (λ f. to_zone-NamesOnly p _ _ found)
          ])))

  pub dispatch_all-NamesOnly :
      (ps : List (Named FirewallPolicySpec))
      → All (λ p. PolicyMeets c.index p.spec) ps
      → NamesOnly (dispatch_all c ps)
  unfolding dispatch_all
  dispatch_all-NamesOnly [] h = tt
  dispatch_all-NamesOnly (p ∷ ps) h =
      All-append IsNaming (dispatch c p).reports _ (dispatch-NamesOnly p h.0)
        (All-append IsNaming (dispatch_all c ps).reports [] (dispatch_all-NamesOnly ps h.1) tt)

  pub filter_chains-NamesOnly :
      (ps : List (Named FirewallPolicySpec))
      → All (λ p. PolicyMeets c.index p.spec) ps
      → NamesOnly (filter_chains c ps)
  unfolding filter_chains
  filter_chains-NamesOnly [] h = tt
  filter_chains-NamesOnly (p ∷ ps) h =
      All-append IsNaming (dispatch_all c (p ∷ ps)).reports [] (dispatch_all-NamesOnly (p ∷ ps) h)
        tt
