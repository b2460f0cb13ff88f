-- ===== src/Render/Nftables/Marks.antt =====
-- internal/render/nftables/render.go, the chain that decides which uplink a packet leaves by.
use Prim.Native.Nat.{Ordering}
use Prim.Native.String as Text
use regied.Prelude.{
  String, none, some, List, [], ◌∷◌, ◌++◌, map, ◌⋅◌, quote, sort, or_else, hexadecimal, compare_ℤ,
}
use regied.Prelude.Logged.{Logged, ◌>>=◌, ◌>>◌, pure, each}
use regied.Api.Netip.{Prefix}
use regied.Api.Scalars.{SourceRange}
use regied.Api.Firewall.{EgressRoutePolicySpec, policy_family}
use regied.Config.Derive.{PolicyRouting}
use regied.Config.Returns.{ForwardReturn}
use regied.Config.Model.{Config, Named, policy_routing, resources_of, as_route_policy}
use regied.Render.Nftables.Ruleset.{Rule, Chain}
use regied.Render.Nftables.Matches.{
  address_set_prefix, family_header, parts, set_of, prefix_values, compare_source_ranges,
  range_values, priority_or_last,
}
use regied.Render.Nftables.Names.{fail, link_name}
use regied.Render.Nftables.Policies.{a_rule}

abbrev restore_rule : Rule
restore_rule =
    a_rule
      "ct direction reply ct mark != 0 meta mark set ct mark return comment \"PortForward: a reply leaves by the uplink the connection arrived on\""

-- the rule that saves the mark of one uplink and family
return_rule : String → ForwardReturn → Rule
unfolding parts hexadecimal
return_rule link r = a_rule (
    parts (
      ("iifname " ⋅ quote link)
      ∷ ("meta nfproto " ⋅ r.family)
      ∷ "ct state new"
      ∷ "ct status dnat"
      ∷ ("ct mark set 0x" ⋅ hexadecimal r.mark)
      ∷ ("comment " ⋅ quote ("PortForward: replies leave by " ⋅ link))
      ∷ []))

unfoldable pub save_rule : Config → ForwardReturn → Logged String (List Rule)
unfolding return_rule link_name
save_rule c r = elim (link_name c r.uplink) [
  | some link ↦ pure (return_rule link r ∷ [])
  | none ↦ do fail ("a PortForward leaves by " ⋅ quote r.uplink ⋅ ", which is not a link"); pure []
]

unfoldable pub return_rules : Config → List ForwardReturn → Logged String (List Rule)
unfolding save_rule
return_rules c [] = pure []
return_rules c (r ∷ rs) = do saves ← each (save_rule c) (r ∷ rs); pure (restore_rule ∷ saves)

unfoldable pub forward_return_rules : Config → Logged String (List Rule)
unfolding return_rules
forward_return_rules c = return_rules c c.returns

ranges_match : String → List String → List String
unfolding set_of
ranges_match header [] = []
ranges_match header (v ∷ vs) = (header ⋅ " saddr " ⋅ set_of (v ∷ vs)) ∷ []

unfoldable pub source_alternatives : String → List SourceRange → List String → List String
unfolding ranges_match family_header range_values compare_source_ranges
source_alternatives family ranges refs =
    ranges_match (family_header family) (range_values family (sort compare_source_ranges ranges))
    ++ map (λ ref. family_header family ⋅ " saddr @" ⋅ address_set_prefix ⋅ ref) refs

exclusion_of : String → List String → String
unfolding family_header set_of
exclusion_of family [] = ""
exclusion_of family (v ∷ vs) = family_header family ⋅ " daddr != " ⋅ set_of (v ∷ vs)

unfoldable pub exclusion_match : String → List Prefix → String
unfolding exclusion_of prefix_values
exclusion_match family destinations = exclusion_of family (prefix_values family destinations)

mark_rule : Named EgressRoutePolicySpec → PolicyRouting → String → Rule
unfolding exclusion_match parts policy_family hexadecimal
mark_rule p routing source = a_rule (
    parts (
      source
      ∷ exclusion_match (policy_family p.spec) p.spec.exclude_destinations
      ∷ ("meta mark set 0x" ⋅ hexadecimal routing.mark)
      ∷ "return"
      ∷ ("comment " ⋅ quote ("EgressRoutePolicy/" ⋅ p.name))
      ∷ []))

-- one round of the loop over the policies
unfoldable pub policy_marks : Config → Named EgressRoutePolicySpec → Logged String (List Rule)
unfolding policy_routing mark_rule source_alternatives policy_family
policy_marks c p = elim (policy_routing c p.name) [
  | none ↦ do fail ("no mark was derived for the EgressRoutePolicy " ⋅ quote p.name); pure []
  | some routing ↦ pure (
      map (mark_rule p routing) (
        source_alternatives (policy_family p.spec) p.spec.source_ranges
          p.spec.source_address_set_refs))
]

-- the order that the policies are evaluated in
abbrev pub compare_evaluated : Named EgressRoutePolicySpec → Named EgressRoutePolicySpec → Ordering
compare_evaluated a b = or_else (Text.compare (policy_family a.spec) (policy_family b.spec)) (
    or_else (compare_ℤ (priority_or_last a.spec) (priority_or_last b.spec))
      (Text.compare a.name b.name))

unfoldable pub route_policies : Config → List (Named EgressRoutePolicySpec)
unfolding resources_of as_route_policy policy_family priority_or_last
route_policies c = sort compare_evaluated (resources_of as_route_policy c.document.resources)

mark_comment : String
mark_comment =
    "which uplink a packet leaves by. First the reply to a port forward, which goes\n"
    ⋅ "back by the uplink the connection arrived on: the mark saved on the connection\n"
    ⋅ "is restored ahead of every policy. Then the matching half of policy routing.\n"
    ⋅ "It runs after nat prerouting, so a packet a port forward readdressed to a host\n"
    ⋅ "inside already carries that address when the exclusions below are considered,\n"
    ⋅ "and stays local. Nothing here has to know the uplink's global address"

-- no chain where there are no rules
mark_chain : List Rule → List Chain
unfolding mark_comment
mark_chain [] = []
mark_chain (r ∷ rs) =
    record {
      name = "prerouting_mark";
      base =
          some (record {
            kind = "filter";
            hook = "prerouting";
            priority = "filter";
            policy = "accept";
          });
      rules = r ∷ rs;
      comment = mark_comment;
    }
    ∷ []

unfoldable pub render_mark_chain : Config → Logged String (List Chain)
unfolding forward_return_rules route_policies policy_marks mark_chain
render_mark_chain c = do
  restored ← forward_return_rules c
  marked ← each (policy_marks c) (route_policies c)
  pure (mark_chain (restored ++ marked))
