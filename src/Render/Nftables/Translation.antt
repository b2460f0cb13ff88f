-- ===== src/Render/Nftables/Translation.antt =====
-- internal/render/nftables/render.go, the translations and the clamping of the segment size.
use regied.Prelude.{
  String, Option, none, some, List, [], ◌∷◌, ◌++◌, map, if◌then◌else◌, ◌=ˢ◌, ◌⋅◌, quote, sort,
}
use regied.Prelude.Logged.{Logged, ◌>>=◌, ◌>>◌, pure, each}
use regied.Api.Netip.{addr_text}
use regied.Api.Scalars.{family_of, integer_text, resolved, mss_off, mss_fixed}
use regied.Api.Firewall.{
  PortForwardSpec, ForwardTarget, SourceNatSpec, hairpin_enabled, listening_ports, target_ports,
}
use regied.Config.Model.{Config, Named, resources_of, as_forward, as_source_nat}
use regied.Render.Nftables.Ruleset.{Rule, Chain}
use regied.Render.Nftables.Matches.{
  family_header, parts, set_of, prefix_values, families_of, port_match, target_of, uplink_set_name,
}
use regied.Render.Nftables.Names.{fail, link_name}
use regied.Render.Nftables.Sets.{compare_names}
use regied.Render.Nftables.Policies.{a_rule}

unfoldable pub forwards : Config → List (Named PortForwardSpec)
unfolding resources_of as_forward
forwards c = sort compare_names (resources_of as_forward c.document.resources)

unfoldable pub source_nats : Config → List (Named SourceNatSpec)
unfolding resources_of as_source_nat
source_nats c = sort compare_names (resources_of as_source_nat c.document.resources)

abbrev forward_comment : String → String
forward_comment name = "comment " ⋅ quote ("PortForward/" ⋅ name)

translation : PortForwardSpec → ForwardTarget → String
unfolding family_header family_of target_of target_ports
translation s t =
    "dnat " ⋅ family_header (family_of t.address) ⋅ " to " ⋅ target_of t (target_ports s)

-- the rule for traffic that arrives on the uplink
head_rule : Named PortForwardSpec → ForwardTarget → String → Rule
unfolding parts family_of port_match listening_ports translation
head_rule f t link = a_rule (
    parts (
      ("iifname " ⋅ quote link)
      ∷ ("meta nfproto " ⋅ family_of t.address)
      ∷ port_match (some f.spec.protocol) "dport" (listening_ports f.spec ∷ [])
      ∷ translation f.spec t
      ∷ forward_comment f.name
      ∷ []))

-- the rule for a host inside that reaches the service by the uplink's address
hairpin_rule : Named PortForwardSpec → ForwardTarget → String → Rule
unfolding parts family_of family_header uplink_set_name port_match listening_ports translation
hairpin_rule f t link = a_rule (
    parts (
      ("iifname != " ⋅ quote link)
      ∷ ("meta nfproto " ⋅ family_of t.address)
      ∷ (family_header (family_of t.address)
          ⋅ " daddr @"
          ⋅ uplink_set_name link (family_of t.address))
      ∷ port_match (some f.spec.protocol) "dport" (listening_ports f.spec ∷ [])
      ∷ translation f.spec t
      ∷ forward_comment f.name
      ∷ []))

unfoldable pub dnat_rules :
    Named PortForwardSpec → String → Option ForwardTarget → Logged String (List Rule)
unfolding head_rule hairpin_rule
dnat_rules f link none = do fail ("the PortForward " ⋅ quote f.name ⋅ " has no target"); pure []
dnat_rules f link (some t) =
    pure (head_rule f t link ∷ (if hairpin_enabled f.spec then hairpin_rule f t link ∷ [] else []))

unfoldable pub forward_dnat : Config → Named PortForwardSpec → Logged String (List Rule)
unfolding dnat_rules link_name
forward_dnat c f = elim (link_name c f.spec.egress_ref) [
  | none ↦ do
    fail (
        "the PortForward "
        ⋅ quote f.name
        ⋅ " leaves by "
        ⋅ quote f.spec.egress_ref
        ⋅ ", which is not a link")
    pure []
  | some link ↦ dnat_rules f link f.spec.target
]

masquerade_rule : Named PortForwardSpec → ForwardTarget → String → Rule
unfolding parts family_of family_header addr_text port_match target_ports
masquerade_rule f t link = a_rule (
    parts (
      ("iifname != " ⋅ quote link)
      ∷ "ct status dnat"
      ∷ ("meta nfproto " ⋅ family_of t.address)
      ∷ (family_header (family_of t.address) ⋅ " daddr " ⋅ addr_text t.address)
      ∷ port_match (some f.spec.protocol) "dport" (target_ports f.spec ∷ [])
      ∷ "masquerade"
      ∷ forward_comment f.name
      ∷ []))

hairpin_snat : Named PortForwardSpec → Option ForwardTarget → Option String → List Rule
unfolding masquerade_rule
hairpin_snat f none link = []
hairpin_snat f (some t) none = []
hairpin_snat f (some t) (some link) = masquerade_rule f t link ∷ []

unfoldable pub forward_hairpin_snat : Config → Named PortForwardSpec → List Rule
unfolding hairpin_snat link_name
forward_hairpin_snat c f =
    if hairpin_enabled f.spec
    then hairpin_snat f f.spec.target (link_name c f.spec.egress_ref)
    else []

abbrev matched : String → List String → String
matched head [] = ""
matched head (v ∷ vs) = head ⋅ set_of (v ∷ vs)

-- the rule for one family that the resource names
family_rule : Named SourceNatSpec → String → String → Rule
unfolding parts family_header prefix_values set_of
family_rule n link family = a_rule (
    parts (
      ("oifname " ⋅ quote link)
      ∷ matched (family_header family ⋅ " saddr ") (prefix_values family n.spec.source_ranges)
      ∷ matched (family_header family ⋅ " daddr != ")
          (prefix_values family n.spec.exclude_destinations)
      ∷ "masquerade"
      ∷ ("comment " ⋅ quote ("SourceNAT/" ⋅ n.name))
      ∷ []))

-- a resource that names no family translates everything
nat_rules : Named SourceNatSpec → String → List String → List Rule
unfolding parts family_rule
nat_rules n link [] =
    a_rule (
      parts (
        ("oifname " ⋅ quote link)
        ∷ "masquerade"
        ∷ ("comment " ⋅ quote ("SourceNAT/" ⋅ n.name))
        ∷ []))
    ∷ []
nat_rules n link (f ∷ fs) = map (family_rule n link) (f ∷ fs)

unfoldable pub source_nat_rules : Config → Named SourceNatSpec → Logged String (List Rule)
unfolding nat_rules families_of link_name
source_nat_rules c n = elim (link_name c n.spec.egress_ref) [
  | none ↦ do
    fail (
        "the SourceNAT "
        ⋅ quote n.name
        ⋅ " leaves by "
        ⋅ quote n.spec.egress_ref
        ⋅ ", which is not a link")
    pure []
  | some link ↦
      pure (nat_rules n link (families_of n.spec.source_ranges n.spec.exclude_destinations))
]

dnat_chain : List Rule → List Chain
dnat_chain [] = []
dnat_chain (r ∷ rs) =
    record {
      name = "prerouting_nat";
      base =
          some
            (record { kind = "nat"; hook = "prerouting"; priority = "dstnat"; policy = "accept" });
      rules = r ∷ rs;
      comment =
          "port forwards. This runs before the chain that marks, which is what lets a\nhairpinned connection fall out of a policy's local exclusion";
    }
    ∷ []

snat_chain : List Rule → List Chain
snat_chain [] = []
snat_chain (r ∷ rs) =
    record {
      name = "postrouting_nat";
      base =
          some
            (record { kind = "nat"; hook = "postrouting"; priority = "srcnat"; policy = "accept" });
      rules = r ∷ rs;
      comment =
          "translation on the way out: the hairpin half of a port forward, then the\nsource translation each uplink asked for";
    }
    ∷ []

hairpin_snats : Config → List (Named PortForwardSpec) → List Rule
unfolding forward_hairpin_snat
hairpin_snats c [] = []
hairpin_snats c (f ∷ fs) = forward_hairpin_snat c f ++ hairpin_snats c fs

unfoldable pub render_nat_chains : Config → Logged String (List Chain)
unfolding forwards source_nats forward_dnat hairpin_snats source_nat_rules dnat_chain snat_chain
render_nat_chains c = do
  dnat ← each (forward_dnat c) (forwards c)
  snat ← each (source_nat_rules c) (source_nats c)
  pure (dnat_chain dnat ++ snat_chain (hairpin_snats c (forwards c) ++ snat))

unfoldable pub mss_size : Config → String
unfolding resolved integer_text
mss_size c =
    if (resolved c.document.global.mss_clamp).mode =ˢ mss_fixed
    then integer_text (resolved c.document.global.mss_clamp).value
    else "rt mtu"

unfoldable pub render_mss_chain : Config → List Chain
unfolding mss_size resolved
render_mss_chain c =
    if (resolved c.document.global.mss_clamp).mode =ˢ mss_off
    then []
    else record {
      name = "forward_mss";
      base =
          some
            (record { kind = "filter"; hook = "forward"; priority = "mangle"; policy = "accept" });
      rules = a_rule ("tcp flags syn / syn,rst tcp option maxseg size set " ⋅ mss_size c) ∷ [];
      comment =
          "clamp the segment size on every path whose MTU is lower. The masked flags match\nthe SYN and the SYN-ACK, so both ends are told";
    }
      ∷ []
