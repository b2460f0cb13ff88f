-- ===== src/Render/Nftables/Matches.antt =====
-- internal/render/nftables/render.go, the matches and the small helpers: what a rule's pieces are and how
-- they are put together.
use Prim.Native.Nat.{Ordering, compare}
use Prim.Native.String as Text
use Prim.Native.Char.{code}
use regied.Prelude.{
  ℕ, String, Bool, true, false, not, ◌&&◌, ◌||◌, Option, none, some, List, [], ◌∷◌, ◌++◌, map,
  if◌then◌else◌, leb, ◌==◌, ◌=ˢ◌, ◌⋅◌, decimal, join, sort, or_else, ℤ, pos,
}
use regied.Api.Netip.{Addr, Prefix, is6, compare_addr, addr_text, prefix_text}
use regied.Api.Scalars.{
  SourceRange, PortSpec, Protocol, family_ipv4, family_ipv6, family_of, is_prefix, range_text,
  ports_text, is_zero,
}
use regied.Api.Firewall.{ForwardTarget, EgressRoutePolicySpec}

abbrev pub zone_set_prefix : String
zone_set_prefix = "zone_"

abbrev pub address_set_prefix : String
address_set_prefix = "addrset_"

abbrev pub policy_chain_prefix : String
policy_chain_prefix = "policy_"

unfoldable pub uplink_set_prefix : String → String
uplink_set_prefix family = if family =ˢ family_ipv6 then "uplink6_" else "uplink4_"

unfoldable pub uplink_set_name : String → String → String
unfolding uplink_set_prefix
uplink_set_name link family = uplink_set_prefix family ⋅ link

unfoldable pub family_label : String → String
family_label family = if family =ˢ family_ipv6 then "IPv6" else "IPv4"

unfoldable pub family_header : String → String
family_header family = if family =ˢ family_ipv6 then "ip6" else "ip"

unfoldable pub address_type : String → String
address_type family = if family =ˢ family_ipv6 then "ipv6_addr" else "ipv4_addr"

nonempty : List String → List String
nonempty [] = []
nonempty (p ∷ ps) = let rest = nonempty ps in if p =ˢ "" then rest else p ∷ rest

-- parts: what was added and is not empty, as one text
unfoldable pub parts : List String → String
unfolding nonempty
parts pieces = join " " (nonempty pieces)

unfoldable pub set_of : List String → String
set_of (v ∷ []) = v
set_of values = "{ " ⋅ join ", " values ⋅ " }"

-- agree: `none` where two of the families disagree
unfoldable pub agree_from : String → List String → Option String
agree_from settled [] = some settled
agree_from settled (f ∷ fs) =
    let kept = agree_from settled fs in
    let taken = agree_from f fs in
    if f =ˢ "" then kept else if not (settled =ˢ "") && not (settled =ˢ f) then none else taken

unfoldable pub agree : List String → Option String
unfolding agree_from
agree families = agree_from "" families

unfoldable pub compare_prefixes : Prefix → Prefix → Ordering
unfolding compare_addr
compare_prefixes a b =
    or_else (compare_addr a.addr b.addr) (compare a.bits_plus_one b.bits_plus_one)

-- the prefixes of one family
unfoldable pub of_family : String → List Prefix → List Prefix
unfolding family_of
of_family family [] = []
of_family family (p ∷ ps) =
    let rest = of_family family ps in if family_of p.addr =ˢ family then p ∷ rest else rest

unfoldable pub prefix_values : String → List Prefix → List String
unfolding of_family compare_prefixes prefix_text
prefix_values family prefixes = map prefix_text (sort compare_prefixes (of_family family prefixes))

mentions : String → List Prefix → Bool
unfolding family_of
mentions family [] = false
mentions family (p ∷ ps) = (family_of p.addr =ˢ family) || mentions family ps

-- familiesOf two lists
unfoldable pub families_of : List Prefix → List Prefix → List String
unfolding mentions
families_of ps qs =
    (if mentions family_ipv4 ps || mentions family_ipv4 qs then family_ipv4 ∷ [] else [])
    ++ (if mentions family_ipv6 ps || mentions family_ipv6 qs then family_ipv6 ∷ [] else [])

unfoldable pub first_address_of : SourceRange → Addr
unfolding is_prefix
first_address_of r = if is_prefix r then r.prefix.addr else r.from

unfoldable pub compare_source_ranges : SourceRange → SourceRange → Ordering
unfolding first_address_of compare_addr range_text
compare_source_ranges a b =
    or_else (compare_addr (first_address_of a) (first_address_of b))
      (Text.compare (range_text a) (range_text b))

-- the values of the ranges of one family
unfoldable pub range_values : String → List SourceRange → List String
unfolding first_address_of family_of range_text
range_values family [] = []
range_values family (r ∷ rs) =
    let rest = range_values family rs in
    if family_of (first_address_of r) =ˢ family then range_text r ∷ rest else rest

-- priorityOf, where a priority that is missing sorts last
unfoldable pub priority_or_last : EgressRoutePolicySpec → ℤ
priority_or_last s = elim s.priority [ none ↦ pos 1073741824 | some n ↦ n ]

unfoldable pub protocol_keyword : Protocol → String
protocol_keyword p =
    if p.name =ˢ ""
    then decimal p.number
    else if p.name =ˢ "icmpv6"
    then "ipv6-icmp"
    else if p.name =ˢ "ipip"
    then "4"
    else p.name

unfoldable pub protocol_match : Option Protocol → Bool → String
unfolding protocol_keyword is_zero
protocol_match none has_ports = if has_ports then "meta l4proto { tcp, udp }" else ""
protocol_match (some p) has_ports =
    if is_zero p
    then (if has_ports then "meta l4proto { tcp, udp }" else "")
    else "meta l4proto " ⋅ protocol_keyword p

abbrev port_header : Option Protocol → String
port_header none = "th"
port_header (some p) = if (p.name =ˢ "tcp") || (p.name =ˢ "udp") then p.name else "th"

unfoldable pub port_match : Option Protocol → String → List PortSpec → String
unfolding set_of ports_text
port_match protocol side [] = ""
port_match protocol side (p ∷ ps) =
    port_header protocol ⋅ " " ⋅ side ⋅ " " ⋅ set_of (map ports_text (p ∷ ps))

unfoldable pub target_of : ForwardTarget → PortSpec → String
unfolding addr_text is6 ports_text
target_of t ports =
    (if is6 t.address then "[" ⋅ addr_text t.address ⋅ "]" else addr_text t.address)
    ⋅ ":"
    ⋅ ports_text ports

-- nftIdentifier, the characters of a name
identifier_char : ℕ → Bool
identifier_char c =
    (leb b'A' c && leb c b'Z')
    || (leb b'a' c && leb c b'z')
    || (leb b'0' c && leb c b'9')
    || c == b'_'
    || c == b'.'
    || c == b'/'
    || c == b'-'

all_identifier : String → Bool
unfolding identifier_char
all_identifier Text.[] = true
all_identifier (Text.◌∷◌ c s) = identifier_char (code c) && all_identifier s

unfoldable pub is_identifier : String → Bool
unfolding all_identifier
is_identifier name = not (name =ˢ "") && all_identifier name
