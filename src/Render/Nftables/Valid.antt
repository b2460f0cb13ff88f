-- ===== src/Render/Nftables/Valid.antt =====
-- internal/render/nftables/render.go behind internal/config/validate.go: what Render reports of a
-- configuration that was validated.
use regied.Prelude.{
  true, Option, none, some, List, [], ◌∷◌, String, map, ◌≡◌, refl, All, All-append, All-map,
  All-sort, is_some,
}
use regied.Prelude.Logged.{each}
use regied.Api.Firewall.{
  FirewallZoneSpec, FirewallPolicySpec, SourceNatSpec, PortForwardSpec, EgressRoutePolicySpec,
}
use regied.Api.Document.{Resource, Spec, NetworkConfig, a_zone, a_policy, a_source_nat, a_forward}
use regied.Config.Returns.{asked_key}
use regied.Config.Model.{
  Config, Entry, Named, keep, resources_of, as_zone, as_policy, as_forward, as_source_nat,
  as_route_policy, policy_routing,
}
use regied.Config.Resolve.{Validator, build_index}
use regied.Config.Validate.{
  valid, validate, validator_of, config_of, policy_of, forward_of, policies_of, forwards_of,
}
use regied.Config.Validate.Passed.{Passed, validate-Passed}
use regied.Config.Validate.Links.{IsKinded, build_index-IsKinded}
use regied.Config.Validate.Needs.{IsLink, Meets, PolicyMeets, ForwardMeets}
use regied.Config.Validate.Meets.{check_resources-Meets}
use regied.Config.Validate.Routed.{
  AsksOf, asked_key-AsksOf, derive_routing-IsRouted, derive_routing-uplinks,
}
use regied.Render.Nftables.Sets.{
  compare_names, zones, address_sets, uplinks, zone_set_of, address_set_of, uplink_sets_of,
  render_sets,
}
use regied.Render.Nftables.Policies.{policies, compare_pairs, policy_chain, render_policy_chains}
use regied.Render.Nftables.Marks.{
  route_policies, compare_evaluated, policy_marks, forward_return_rules, return_rules,
  render_mark_chain,
}
use regied.Render.Nftables.Translation.{
  forwards, source_nats, forward_dnat, source_nat_rules, render_nat_chains,
}
use regied.Render.Nftables.Filter.{render_filter_chains, render_table, filter_chains}
use regied.Render.Nftables.Accepts.{IsNaming, NamesOnly, each-NamesOnly}
use regied.Render.Nftables.Accepted.{
  address_set-NamesOnly, uplink_sets-NamesOnly, zone_set_of-NamesOnly, policy_chain-NamesOnly,
  return_rules-NamesOnly, policy_marks-NamesOnly, forward_dnat-NamesOnly, source_nat-NamesOnly,
  filter_chains-NamesOnly,
}

abbrev OnSome : {S : Type 0} → (S → Type 0) → Option S → Type 0
OnSome Q none = Unit {0}
OnSome Q (some s) = Q s

kept :
    {S : Type 0} (Q : S → Type 0) (name : String) (o : Option S) (rest : List (Named S))
    → OnSome Q o
    → All (λ n. Q n.spec) rest
    → All (λ n. Q n.spec) (keep name o rest)
kept Q name none rest q h = h
kept Q name (some s) rest q h = (q, h)

-- A property of the resources is one of those of a kind.
All-resources_of :
    {S : Type 0} (P : Spec → Type 0) (Q : S → Type 0) (of : Spec → Option S)
    → ((spec : Spec) → P spec → OnSome Q (of spec))
    → (rs : List Resource) → All (λ r. P r.spec) rs
    → All (λ n. Q n.spec) (resources_of of rs)
unfolding resources_of
All-resources_of P Q of step [] h = tt
All-resources_of P Q of step (r ∷ rs) h =
    kept Q r.name (of r.spec) (resources_of of rs) (step r.spec h.0)
      (All-resources_of P Q of step rs h.1)

everything : {A : Type 0} (xs : List A) → All (λ _. Unit {0}) xs
everything [] = tt
everything (x ∷ xs) = (tt, everything xs)

module _ (index : List Entry) where
  zone_met :
      (spec : Spec)
      → Meets index spec
      → OnSome (λ (s : FirewallZoneSpec). All (IsLink index) s.link_refs) (as_zone spec)
  unfolding as_zone
  zone_met (a_zone s) h = h
  zone_met _ h = tt

  policy_met : (spec : Spec) → Meets index spec → OnSome (PolicyMeets index) (as_policy spec)
  unfolding as_policy
  policy_met (a_policy s) h = h
  policy_met _ h = tt

  forward_met : (spec : Spec) → Meets index spec → OnSome (ForwardMeets index) (as_forward spec)
  unfolding as_forward
  forward_met (a_forward s) h = h
  forward_met _ h = tt

  nat_met :
      (spec : Spec)
      → Meets index spec
      → OnSome (λ (s : SourceNatSpec). IsLink index s.egress_ref) (as_source_nat spec)
  unfolding as_source_nat
  nat_met (a_source_nat s) h = h
  nat_met _ h = tt

All-of_map :
    {A B : Type 0} (P : B → Type 0) (g : A → B) (xs : List A)
    → All (λ x. P (g x)) xs
    → All P (map g xs)
All-of_map P g [] h = tt
All-of_map P g (x ∷ xs) h = (h.0, All-of_map P g xs h.1)

All-in_map :
    {A B : Type 0} (P : B → Type 0) (g : A → B) (xs : List A)
    → All P (map g xs)
    → All (λ x. P (g x)) xs
All-in_map P g [] h = tt
All-in_map P g (x ∷ xs) h = (h.0, All-in_map P g xs h.1)

-- A configuration that came out of the validation.
record IsChecked (v : Validator) : Type 0 where
  kinded : All IsKinded v.index
  met : All (λ r. Meets v.index r.spec) v.document.resources

module _ (v : Validator) (k : IsChecked v) where
  returned_links : All (λ r. IsLink v.index r.uplink) (config_of v).returns
  unfolding config_of forwards_of forward_of
  returned_links =
      let named = resources_of as_forward v.document.resources in
      derive_routing-uplinks (IsLink v.index) (policies_of v.document.resources)
        (map forward_of named)
        (All-of_map (λ f. AsksOf (IsLink v.index) (asked_key f)) forward_of named
          (All-map (λ n m. asked_key-AsksOf (IsLink v.index) (forward_of n) m.0) named
            (All-resources_of (Meets v.index) (ForwardMeets v.index) as_forward
              (forward_met v.index) v.document.resources k.met)))

  routed_policies :
      All (λ p. is_some (policy_routing (config_of v) p.name) ≡ true) (route_policies (config_of v))
  unfolding config_of policies_of policy_of route_policies policy_routing
  routed_policies =
      let named = resources_of as_route_policy v.document.resources in
      let routing = (config_of v).routing in
      All-sort
        (λ (n : Named EgressRoutePolicySpec). is_some (policy_routing (config_of v) n.name) ≡ true)
        compare_evaluated named
        (All-in_map (λ p. is_some (policy_routing (config_of v) p.name) ≡ true) policy_of named
          (derive_routing-IsRouted (map policy_of named) (forwards_of v.document.resources)))

  sets-NamesOnly : NamesOnly (render_sets (config_of v))
  unfolding config_of render_sets zones address_sets uplinks
  sets-NamesOnly =
      let c = config_of v in
      All-append IsNaming (each (zone_set_of c) (zones c)).reports _
        (each-NamesOnly (λ (z : Named FirewallZoneSpec). All (IsLink v.index) z.spec.link_refs)
          (zone_set_of c) (zone_set_of-NamesOnly c k.kinded) (zones c)
          (All-sort (λ (z : Named FirewallZoneSpec). All (IsLink v.index) z.spec.link_refs)
            compare_names (resources_of as_zone v.document.resources)
            (All-resources_of (Meets v.index)
              (λ (s : FirewallZoneSpec). All (IsLink v.index) s.link_refs) as_zone
              (zone_met v.index) v.document.resources k.met)))
        (All-append IsNaming (each address_set_of (address_sets c)).reports _
          (each-NamesOnly (λ _. Unit {0}) address_set_of (λ n _. address_set-NamesOnly n)
            (address_sets c) (everything (address_sets c)))
          (All-append IsNaming (each uplink_sets_of (uplinks c)).reports []
            (each-NamesOnly (λ _. Unit {0}) uplink_sets_of (λ u _. uplink_sets-NamesOnly u)
              (uplinks c) (everything (uplinks c)))
            tt))

  policies_meet : All (λ p. PolicyMeets v.index p.spec) (policies (config_of v))
  unfolding config_of policies
  policies_meet =
      All-sort (λ (p : Named FirewallPolicySpec). PolicyMeets v.index p.spec) compare_pairs
        (resources_of as_policy v.document.resources)
        (All-resources_of (Meets v.index) (PolicyMeets v.index) as_policy (policy_met v.index)
          v.document.resources k.met)

  policy_chains-NamesOnly : NamesOnly (render_policy_chains (config_of v))
  unfolding config_of render_policy_chains
  policy_chains-NamesOnly =
      each-NamesOnly (λ (p : Named FirewallPolicySpec). PolicyMeets v.index p.spec)
        (policy_chain (config_of v)) (policy_chain-NamesOnly (config_of v) k.kinded)
        (policies (config_of v)) policies_meet

  mark_chain-NamesOnly : NamesOnly (render_mark_chain (config_of v))
  unfolding config_of render_mark_chain forward_return_rules
  mark_chain-NamesOnly =
      let c = config_of v in
      All-append IsNaming (return_rules c c.returns).reports _
        (return_rules-NamesOnly c k.kinded c.returns returned_links)
        (All-append IsNaming (each (policy_marks c) (route_policies c)).reports []
          (each-NamesOnly
            (λ (p : Named EgressRoutePolicySpec). is_some (policy_routing c p.name) ≡ true)
            (policy_marks c) (policy_marks-NamesOnly c k.kinded) (route_policies c) routed_policies)
          tt)

  nat_chains-NamesOnly : NamesOnly (render_nat_chains (config_of v))
  unfolding config_of render_nat_chains forwards source_nats
  nat_chains-NamesOnly =
      let c = config_of v in
      All-append IsNaming (each (forward_dnat c) (forwards c)).reports _
        (each-NamesOnly (λ (f : Named PortForwardSpec). ForwardMeets v.index f.spec)
          (forward_dnat c) (forward_dnat-NamesOnly c k.kinded) (forwards c)
          (All-sort (λ (f : Named PortForwardSpec). ForwardMeets v.index f.spec) compare_names
            (resources_of as_forward v.document.resources)
            (All-resources_of (Meets v.index) (ForwardMeets v.index) as_forward
              (forward_met v.index) v.document.resources k.met)))
        (All-append IsNaming (each (source_nat_rules c) (source_nats c)).reports []
          (each-NamesOnly (λ (n : Named SourceNatSpec). IsLink v.index n.spec.egress_ref)
            (source_nat_rules c) (source_nat-NamesOnly c k.kinded) (source_nats c)
            (All-sort (λ (n : Named SourceNatSpec). IsLink v.index n.spec.egress_ref) compare_names
              (resources_of as_source_nat v.document.resources)
              (All-resources_of (Meets v.index) (λ (s : SourceNatSpec). IsLink v.index s.egress_ref)
                as_source_nat (nat_met v.index) v.document.resources k.met)))
          tt)

  table-NamesOnly : NamesOnly (render_table (config_of v))
  unfolding render_table render_filter_chains config_of
  table-NamesOnly =
      let c = config_of v in
      All-append IsNaming (render_sets c).reports _ sets-NamesOnly (
        All-append IsNaming (render_policy_chains c).reports _ policy_chains-NamesOnly (
          All-append IsNaming (render_mark_chain c).reports _ mark_chain-NamesOnly (
            All-append IsNaming (render_nat_chains c).reports _ nat_chains-NamesOnly (
              All-append IsNaming (filter_chains c (policies c)).reports []
                (filter_chains-NamesOnly c k.kinded (policies c) policies_meet) tt))))

checked :
    (v : Validator) → v.index ≡ (build_index [] v.document.resources).value → Passed v → IsChecked v
checked v same passed = record {
  kinded = rw same (build_index-IsKinded v.document.resources);
  met = check_resources-Meets v [] v.document.resources passed.resources;
}

-- What Render reports about a validated configuration is only that a name cannot be one of nftables:
-- no link, zone, address set, target or mark that it looks up is missing.
pub render_table-NamesOnly :
    (files : String → Option String) (d : NetworkConfig) {c : Config}
    → validate files d ≡ valid c
    → NamesOnly (render_table c)
unfolding validator_of
render_table-NamesOnly files d h =
    let v = validator_of files d in
    let (passed, is) = validate-Passed files d h in
    rw (← is) (table-NamesOnly v (checked v refl passed))
