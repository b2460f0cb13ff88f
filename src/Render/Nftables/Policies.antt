-- ===== src/Render/Nftables/Policies.antt =====
-- internal/render/nftables/render.go, the chains of the firewall policies.
use Prim.Native.Nat.{Ordering}
use Prim.Native.String as Text
use regied.Prelude.{
  ◌+◌, String, Option, none, some, List, [], ◌∷◌, ◌++◌, if◌then◌else◌, ltb, ◌=ˢ◌, ◌⋅◌, quote, sort,
  or_else, length, is_some,
}
use regied.Prelude.Logged.{Logged, ◌>>=◌, ◌>>◌, pure, each}
use regied.Api.Netip.{Prefix}
use regied.Api.Scalars.{family_ipv4, family_ipv6}
use regied.Api.Firewall.{
  FirewallPolicySpec, FirewallRule, log_enabled, log_default_enabled, stateful_enabled,
}
use regied.Api.Document.{Resource, ip_address_set}
use regied.Config.Model.{Config, Named, lookup, resources_of, as_policy, as_address_set}
use regied.Render.Nftables.Ruleset.{Rule, Chain}
use regied.Render.Nftables.Matches.{
  address_set_prefix, policy_chain_prefix, family_header, parts, set_of, agree, prefix_values,
  protocol_match, port_match,
}
use regied.Render.Nftables.Names.{fail, identifier}

abbrev pub log_prefix_marker : String
log_prefix_marker = "regied "

-- a rule with no comment of its own
abbrev pub a_rule : String → Rule
a_rule text = record { text = text; comment = "" }

-- addressMatch; the zero value is what a rule with no restriction has
pub record AddressMatch : Type 0 where
  pub family : String
  pub text : String

abbrev no_match : AddressMatch
no_match = record { family = ""; text = "" }

unfoldable pub cidr_match : String → List Prefix → String → Logged String (List AddressMatch)
unfolding family_header set_of
cidr_match side cidrs family =
    let values = prefix_values family cidrs in
    elim values [
      | [] ↦ pure []
      | v ∷ vs ↦ pure (
          record {
            family = family;
            text = family_header family ⋅ " " ⋅ side ⋅ " " ⋅ set_of (v ∷ vs);
          }
          ∷ [])
    ]

unfoldable pub set_match : String → String → Option Resource → Logged String (List AddressMatch)
unfolding as_address_set family_header
set_match side ref none = do fail ("no IPAddressSet named " ⋅ quote ref); pure []
set_match side ref (some r) = elim (as_address_set r.spec) [
  | none ↦ pure []
  | some s ↦ pure (
      record {
        family = s.family;
        text = family_header s.family ⋅ " " ⋅ side ⋅ " @" ⋅ address_set_prefix ⋅ ref;
      }
      ∷ [])
]

abbrev or_any : List AddressMatch → List AddressMatch
or_any [] = no_match ∷ []
or_any (m ∷ ms) = m ∷ ms

unfoldable pub address_alternatives :
    Config → String → List Prefix → List String → Logged String (List AddressMatch)
unfolding cidr_match set_match
address_alternatives c side cidrs refs = do
  written ← each (cidr_match side cidrs) (family_ipv4 ∷ family_ipv6 ∷ [])
  named ← each (λ ref. set_match side ref (lookup c ip_address_set ref)) refs
  pure (or_any (written ++ named))

-- the text of one combination of a rule's source and destination
unfoldable pub combination_text : String → FirewallRule → AddressMatch → AddressMatch → String
unfolding parts protocol_match port_match
combination_text policy r source destination = parts (
    (if r.family =ˢ "" then "" else "meta nfproto " ⋅ r.family)
    ∷ protocol_match r.protocol (ltb 0 (length r.source_ports + length r.destination_ports))
    ∷ source.text
    ∷ destination.text
    ∷ port_match r.protocol "sport" r.source_ports
    ∷ port_match r.protocol "dport" r.destination_ports
    ∷ (if log_enabled r
        then "log prefix " ⋅ quote (log_prefix_marker ⋅ policy ⋅ " " ⋅ r.name ⋅ " ")
        else "")
    ∷ "counter"
    ∷ r.action
    ∷ ("comment " ⋅ quote r.name)
    ∷ [])

-- the loop over the destinations
unfoldable pub with_destinations :
    String → FirewallRule → AddressMatch → List AddressMatch → List String
unfolding combination_text agree
with_destinations policy r source [] = []
with_destinations policy r source (d ∷ ds) =
    let rest = with_destinations policy r source ds in
    if is_some (agree (r.family ∷ source.family ∷ d.family ∷ []))
    then combination_text policy r source d ∷ rest
    else rest

-- the loop over the sources
unfoldable pub combinations :
    String → FirewallRule → List AddressMatch → List AddressMatch → List String
unfolding with_destinations
combinations policy r [] destinations = []
combinations policy r (s ∷ ss) destinations =
    with_destinations policy r s destinations ++ combinations policy r ss destinations

unfoldable pub firewall_rule : Config → String → FirewallRule → Logged String (List String)
unfolding address_alternatives combinations
firewall_rule c policy r = do
  sources ← address_alternatives c "saddr" r.source_cidrs r.source_address_set_refs
  destinations ← address_alternatives c "daddr" r.destination_cidrs r.destination_address_set_refs
  pure (combinations policy r sources destinations)

rules_of : List String → List Rule
rules_of [] = []
rules_of (t ∷ ts) = a_rule t ∷ rules_of ts

abbrev stateful_rules : List Rule
stateful_rules =
    a_rule "ct state established,related counter accept"
    ∷ a_rule "ct state invalid counter drop"
    ∷ []

-- what happens to traffic that no rule matched
unfoldable pub default_rule : Named FirewallPolicySpec → Rule
unfolding parts
default_rule p = a_rule (
    parts (
      (if log_default_enabled p.spec
        then "log prefix " ⋅ quote (log_prefix_marker ⋅ p.name ⋅ " default ")
        else "")
      ∷ "counter"
      ∷ p.spec.default_action
      ∷ ("comment " ⋅ quote (p.name ⋅ " default"))
      ∷ []))

unfoldable pub one_rule : Config → String → FirewallRule → Logged String (List Rule)
unfolding firewall_rule rules_of
one_rule c policy r = do texts ← firewall_rule c policy r; pure (rules_of texts)

unfoldable pub policy_chain : Config → Named FirewallPolicySpec → Logged String (List Chain)
unfolding one_rule default_rule identifier
policy_chain c p = do
  written ← each (one_rule c p.name) p.spec.rules
  name ← identifier policy_chain_prefix "FirewallPolicy" p.name
  pure (
      record {
        name = name;
        base = none;
        rules =
            (if stateful_enabled p.spec then stateful_rules else [])
            ++ (written ++ default_rule p ∷ []);
        comment = "FirewallPolicy " ⋅ quote p.name ⋅ ": " ⋅ p.spec.from ⋅ " to " ⋅ p.spec.to;
      }
      ∷ [])

abbrev pub compare_pairs : Named FirewallPolicySpec → Named FirewallPolicySpec → Ordering
compare_pairs a b =
    or_else (Text.compare a.spec.from b.spec.from)
      (or_else (Text.compare a.spec.to b.spec.to) (Text.compare a.name b.name))

unfoldable pub policies : Config → List (Named FirewallPolicySpec)
unfolding resources_of as_policy
policies c = sort compare_pairs (resources_of as_policy c.document.resources)

unfoldable pub render_policy_chains : Config → Logged String (List Chain)
unfolding policies policy_chain
render_policy_chains c = each (policy_chain c) (policies c)
