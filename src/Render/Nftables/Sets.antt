-- ===== src/Render/Nftables/Sets.antt =====
-- internal/render/nftables/render.go, the sets: the zones, the address sets and what the uplinks hold.
use Prim.Native.Nat.{Ordering}
use Prim.Native.String as Text
use regied.Prelude.{
  String, none, some, List, [], ◌∷◌, ◌++◌, map, if◌then◌else◌, ◌=ˢ◌, ◌⋅◌, quote, sort,
}
use regied.Prelude.Logged.{Logged, ◌>>=◌, ◌>>◌, pure, each}
use regied.Api.Netip.{Addr, Prefix, compare_addr, addr_text, prefix_text}
use regied.Api.Scalars.{DerivableAddr, DerivablePrefix, family_ipv4, family_ipv6}
use regied.Api.Firewall.{FirewallZoneSpec, IpAddressSetSpec, has_derived}
use regied.Api.Document.{Kind, kind_text, pppoe_session, dslite_tunnel}
use regied.Config.Model.{
  Config, Named, resources_of, as_zone, as_address_set, as_session, as_tunnel,
}
use regied.Render.Nftables.Ruleset.{NamedSet}
use regied.Render.Nftables.Matches.{
  zone_set_prefix, address_set_prefix, uplink_set_prefix, family_label, address_type,
  compare_prefixes,
}
use regied.Render.Nftables.Names.{fail, identifier, link_name}

-- by name, as most of the loops go
abbrev pub compare_names : {S : Type 0} → Named S → Named S → Ordering
compare_names a b = Text.compare a.name b.name

unfoldable pub zones : Config → List (Named FirewallZoneSpec)
unfolding resources_of as_zone
zones c = sort compare_names (resources_of as_zone c.document.resources)

unfoldable pub address_sets : Config → List (Named IpAddressSetSpec)
unfolding resources_of as_address_set
address_sets c = sort compare_names (resources_of as_address_set c.document.resources)

-- one round of the loop over a zone's links
unfoldable pub zone_element : Config → String → String → Logged String (List String)
unfolding link_name
zone_element c zone ref = elim (link_name c ref) [
  | some name ↦ pure (quote name ∷ [])
  | none ↦ do
    fail ("the FirewallZone " ⋅ quote zone ⋅ " names " ⋅ quote ref ⋅ ", which is not a link")
    pure []
]

-- slices.Compact
compact_from : String → List String → List String
compact_from last [] = []
compact_from last (x ∷ xs) = let rest = compact_from x xs in if last =ˢ x then rest else x ∷ rest

compact : List String → List String
unfolding compact_from
compact [] = []
compact (x ∷ xs) = x ∷ compact_from x xs

unfoldable pub zone_set_of : Config → Named FirewallZoneSpec → Logged String (List NamedSet)
unfolding zone_element identifier compact
zone_set_of c zone = do
  elements ← each (zone_element c zone.name) zone.spec.link_refs
  name ← identifier zone_set_prefix "FirewallZone" zone.name
  pure (
      record {
        name = name;
        kind = "ifname";
        flags = [];
        elements = compact (sort Text.compare elements);
        comment = "FirewallZone " ⋅ quote zone.name;
      }
      ∷ [])

literal_addresses : List DerivableAddr → List Addr
literal_addresses [] = []
literal_addresses (a ∷ rest) = a.literal ∷ literal_addresses rest

literal_networks : List DerivablePrefix → List Prefix
literal_networks [] = []
literal_networks (p ∷ rest) = p.literal ∷ literal_networks rest

unfoldable pub literal_elements : IpAddressSetSpec → List String
unfolding literal_addresses literal_networks compare_addr compare_prefixes addr_text prefix_text
literal_elements s =
    map addr_text (sort compare_addr (literal_addresses s.addresses))
    ++ map prefix_text (sort compare_prefixes (literal_networks s.networks))

abbrev interval_flag : List DerivablePrefix → List String
interval_flag [] = []
interval_flag (p ∷ ps) = "interval" ∷ []

unfoldable pub address_set_of : Named IpAddressSetSpec → Logged String (List NamedSet)
unfolding identifier address_type has_derived literal_elements
address_set_of set = do
  name ← identifier address_set_prefix "IPAddressSet" set.name
  pure (
      record {
        name = name;
        kind = address_type set.spec.family;
        flags = interval_flag set.spec.networks;
        elements = if has_derived set.spec then [] else literal_elements set.spec;
        comment =
            if has_derived set.spec
            then "IPAddressSet "
              ⋅ quote set.name
              ⋅ ": elements written at runtime, from the delegated prefix"
            else "IPAddressSet " ⋅ quote set.name;
      }
      ∷ [])

pub record Uplink : Type 0 where
  pub kind : Kind
  pub name : String

named_uplinks : {S : Type 0} → Kind → List (Named S) → List Uplink
named_uplinks kind [] = []
named_uplinks kind (n ∷ ns) = record { kind = kind; name = n.name } ∷ named_uplinks kind ns

abbrev pub compare_uplinks : Uplink → Uplink → Ordering
compare_uplinks a b = Text.compare a.name b.name

unfoldable pub uplinks : Config → List Uplink
unfolding named_uplinks resources_of as_session as_tunnel
uplinks c = sort compare_uplinks (
    named_uplinks pppoe_session (resources_of as_session c.document.resources)
    ++ named_uplinks dslite_tunnel (resources_of as_tunnel c.document.resources))

unfoldable pub uplink_set_of : Uplink → String → Logged String (List NamedSet)
unfolding identifier uplink_set_prefix address_type family_label kind_text
uplink_set_of u family = do
  name ← identifier (uplink_set_prefix family) (kind_text u.kind) u.name
  pure (
      record {
        name = name;
        kind = address_type family;
        flags = [];
        elements = [];
        comment =
            kind_text u.kind
            ⋅ " "
            ⋅ quote u.name
            ⋅ ", "
            ⋅ family_label family
            ⋅ ": what the link is holding";
      }
      ∷ [])

unfoldable pub uplink_sets_of : Uplink → Logged String (List NamedSet)
unfolding uplink_set_of
uplink_sets_of u = each (uplink_set_of u) (family_ipv4 ∷ family_ipv6 ∷ [])

-- renderSets, with renderUplinkSets
unfoldable pub render_sets : Config → Logged String (List NamedSet)
unfolding zones zone_set_of address_sets address_set_of uplinks uplink_sets_of
render_sets c = do
  zone_sets ← each (zone_set_of c) (zones c)
  literal_sets ← each address_set_of (address_sets c)
  held_sets ← each uplink_sets_of (uplinks c)
  pure (zone_sets ++ literal_sets ++ held_sets)
