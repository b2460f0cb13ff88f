-- ===== src/Render/Nftables/Filter.antt =====
-- internal/render/nftables/render.go, the hook chains and Render as a whole.
use regied.Prelude.{
  String, Option, none, some, List, [], ◌∷◌, ◌++◌, if◌then◌else◌, ◌=ˢ◌, ◌⋅◌, quote,
}
use regied.Prelude.Logged.{Logged, ◌>>=◌, pure}
use regied.Api.Netip.{addr_text}
use regied.Api.Scalars.{family_of}
use regied.Api.Firewall.{
  FirewallPolicySpec, PortForwardSpec, ForwardTarget, open_firewall_enabled, target_ports,
}
use regied.Config.Model.{Config, Named}
use regied.Render.Nftables.Ruleset.{Rule, Chain, Ruleset, table_family, table_name}
use regied.Render.Nftables.Matches.{policy_chain_prefix, family_header, parts, port_match}
use regied.Render.Nftables.Names.{identifier, zone_set}
use regied.Render.Nftables.Sets.{render_sets}
use regied.Render.Nftables.Policies.{a_rule, policies, render_policy_chains}
use regied.Render.Nftables.Marks.{render_mark_chain}
use regied.Render.Nftables.Translation.{forwards, render_nat_chains, render_mss_chain}

opening_rule : Named PortForwardSpec → ForwardTarget → String → String → Rule
unfolding parts family_of family_header addr_text port_match target_ports
opening_rule f t address port = a_rule (
    parts (
      "ct status dnat"
      ∷ ("meta nfproto " ⋅ family_of t.address)
      ∷ (family_header (family_of t.address) ⋅ " " ⋅ address ⋅ " " ⋅ addr_text t.address)
      ∷ port_match (some f.spec.protocol) port (target_ports f.spec ∷ [])
      ∷ "counter"
      ∷ "accept"
      ∷ ("comment " ⋅ quote ("PortForward/" ⋅ f.name))
      ∷ []))

opening : Named PortForwardSpec → Option ForwardTarget → List Rule
unfolding opening_rule
opening f none = []
opening f (some t) = opening_rule f t "daddr" "dport" ∷ opening_rule f t "saddr" "sport" ∷ []

unfoldable pub forward_opening : Named PortForwardSpec → List Rule
unfolding opening
forward_opening f = if open_firewall_enabled f.spec then opening f f.spec.target else []

openings : List (Named PortForwardSpec) → List Rule
unfolding forward_opening
openings [] = []
openings (f ∷ fs) = forward_opening f ++ openings fs

-- the rules that the input and the forward chain are given
pub record Dispatch : Type 0 where
  pub input : List Rule
  pub forward : List Rule

abbrev pub self_zone : String
self_zone = "self"

no_zone : Named FirewallPolicySpec → String → String → Logged String Dispatch
no_zone p verb zone = record {
  value = record { input = []; forward = [] };
  reports =
      ("the FirewallPolicy " ⋅ quote p.name ⋅ verb ⋅ quote zone ⋅ ", which is not a FirewallZone")
      ∷ [];
}

unfoldable pub to_zone :
    Named FirewallPolicySpec
    → String
    → String
    → Option (Logged String String)
    → Logged String Dispatch
unfolding no_zone
to_zone p chain from none = no_zone p " goes to " p.spec.to
to_zone p chain from (some to) = do
  set ← to
  pure (record {
    input = [];
    forward = a_rule ("iifname @" ⋅ from ⋅ " oifname @" ⋅ set ⋅ " jump " ⋅ chain) ∷ [];
  })

unfoldable pub from_zone :
    Config
    → Named FirewallPolicySpec
    → String
    → Option (Logged String String)
    → Logged String Dispatch
unfolding no_zone to_zone zone_set
from_zone c p chain none = no_zone p " comes from " p.spec.from
from_zone c p chain (some from) = do
  set ← from
  (if p.spec.to =ˢ self_zone
      then pure
          (record { input = a_rule ("iifname @" ⋅ set ⋅ " jump " ⋅ chain) ∷ []; forward = [] })
      else to_zone p chain set (zone_set c p.spec.to))

-- one round of the loop over the policies
unfoldable pub dispatch : Config → Named FirewallPolicySpec → Logged String Dispatch
unfolding from_zone identifier zone_set
dispatch c p = do
  chain ← identifier policy_chain_prefix "FirewallPolicy" p.name
  from_zone c p chain (zone_set c p.spec.from)

unfoldable pub dispatch_all : Config → List (Named FirewallPolicySpec) → Logged String Dispatch
unfolding dispatch
dispatch_all c [] = pure (record { input = []; forward = [] })
dispatch_all c (p ∷ ps) = do
  first ← dispatch c p
  rest ← dispatch_all c ps
  pure (record { input = first.input ++ rest.input; forward = first.forward ++ rest.forward })

unfoldable pub input_chain : List Rule → Chain
input_chain rules = record {
  name = "input";
  base = some (record { kind = "filter"; hook = "input"; priority = "filter"; policy = "drop" });
  rules =
      record { text = "iif \"lo\" counter accept"; comment = "the host talking to itself" } ∷ rules;
  comment = "traffic addressed to the host. A zone with no policy to self is dropped";
}

unfoldable pub forward_chain : List Rule → Chain
forward_chain rules = record {
  name = "forward";
  base = some (record { kind = "filter"; hook = "forward"; priority = "filter"; policy = "drop" });
  rules = rules;
  comment = "traffic passing through. A pair of zones with no policy is dropped";
}

-- no hook chain where no policy is declared
unfoldable pub filter_chains : Config → List (Named FirewallPolicySpec) → Logged String (List Chain)
unfolding dispatch_all input_chain forward_chain openings forwards
filter_chains c [] = pure []
filter_chains c (p ∷ ps) = do
  d ← dispatch_all c (p ∷ ps)
  pure (input_chain d.input ∷ forward_chain (openings (forwards c) ++ d.forward) ∷ [])

unfoldable pub render_filter_chains : Config → Logged String (List Chain)
unfolding filter_chains policies
render_filter_chains c = filter_chains c (policies c)

-- what Render builds, with what it could not turn into rules
unfoldable pub render_table : Config → Logged String Ruleset
unfolding render_sets render_policy_chains render_mark_chain render_nat_chains render_mss_chain
    render_filter_chains
render_table c = do
  sets ← render_sets c
  policy_chains ← render_policy_chains c
  mark_chains ← render_mark_chain c
  nat_chains ← render_nat_chains c
  hook_chains ← render_filter_chains c
  pure (record {
    family = table_family;
    table = table_name;
    sets = sets;
    chains = policy_chains ++ mark_chains ++ nat_chains ++ render_mss_chain c ++ hook_chains;
  })

-- Render: the ruleset, or all that was reported
pub data Rendered : Type 0 where
  rendered : Ruleset → Rendered
  refused : List String → Rendered

unless_reported : Ruleset → List String → Rendered
unless_reported r [] = rendered r
unless_reported r (p ∷ ps) = refused (p ∷ ps)

unfoldable pub render : Config → Rendered
unfolding render_table unless_reported
render c = unless_reported (render_table c).value (render_table c).reports
