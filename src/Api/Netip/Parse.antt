-- ===== src/Api/Netip/Parse.antt =====
-- netip.ParseAddr: `none` where Go returns an error.
use Prim.Native.Char.{code}
use Prim.Native.String as Text
use regied.Prelude.{
  ℕ, zero, suc, ◌+◌, ◌-◌, ◌*◌, ◌/◌, ◌%◌, ◌^◌, String, Bool, true, false, not, ◌&&◌, ◌||◌, Option,
  none, some, List, [], ◌∷◌, ◌++◌, length, take, drop, if◌then◌else◌, ltb, leb, ◌==◌, ◌=ˢ◌, ◌≡◌,
  refl,
}
use regied.Api.Netip.{Addr, no_addr, addr4, addr6}

is_digit : ℕ → Bool
is_digit c = leb b'0' c && leb c b'9'

-- parseIPv4Fields: `seen` is the digits of the octet so far, and `pos` the octets before it
fields4 : String → ℕ → ℕ → ℕ → ℕ → Option ℕ
unfolding is_digit
fields4 Text.[] pos acc val seen = if pos == 3 && ltb 0 seen then some (acc * 256 + val) else none
fields4 (Text.◌∷◌ c s) pos acc val seen =
    let digit = fields4 s pos acc (val * 10 + (code c - b'0')) (seen + 1) in
    let dot = fields4 s (pos + 1) (acc * 256 + val) 0 0 in
    if is_digit (code c)
    then (if seen == 1 && val == 0
        then none
        else if ltb 255 (val * 10 + (code c - b'0'))
        then none
        else digit)
    else if code c == b'.'
    then (if seen == 0 || pos == 3 then none else dot)
    else none

ipv4_of : String → Option ℕ
unfolding fields4
ipv4_of s = fields4 s 0 0 0 0

hex_value : ℕ → Option ℕ
unfolding is_digit
hex_value c =
    if is_digit c
    then some (c - b'0')
    else if leb b'a' c && leb c b'f'
    then some (c - b'a' + 10)
    else if leb b'A' c && leb c b'F'
    then some (c - b'A' + 10)
    else none

-- a run of hexadecimal digits: its value, how many there are, and what follows
pub record Group : Type 0 where
  pub value : ℕ
  pub count : ℕ
  pub rest : String

group_of : String → ℕ → ℕ → Group
unfolding hex_value
group_of Text.[] acc n = record { value = acc; count = n; rest = Text.[] }
group_of (Text.◌∷◌ c s) acc n = elim (hex_value (code c)) [
  | none ↦ record { value = acc; count = n; rest = Text.◌∷◌ c s }
  | some d ↦ group_of s (acc * 16 + d) (n + 1)
]

pub record Scan : Type 0 where
  pub groups : List ℕ
  pub ellipsis : Option ℕ

starts_colon : String → Option String
starts_colon Text.[] = none
starts_colon (Text.◌∷◌ c s) = if code c == b':' then some s else none

starts_dot : String → Bool
starts_dot Text.[] = false
starts_dot (Text.◌∷◌ c s) = code c == b'.'

no_ellipsis : Option ℕ → Bool
no_ellipsis none = true
no_ellipsis (some n) = false

embedded : Option ℕ → Scan → Option Scan
embedded none scan = none
embedded (some n) scan = some (record scan { groups = scan.groups ++ n / 65536 ∷ n % 65536 ∷ [] })

-- The loop over the groups; its fuel is the groups that are left. `none` is an error, and a scan that
-- ends with text left over is one too.
scan_groups : ℕ → Scan → String → Option Scan
unfolding group_of starts_dot ipv4_of embedded starts_colon no_ellipsis
scan_groups zero scan s = if s =ˢ "" then some scan else none
scan_groups (suc fuel) scan s =
    let g = group_of s 0 0 in
    let grown = record scan { groups = scan.groups ++ g.value ∷ [] } in
    let last = embedded (ipv4_of s) scan in
    let more : Option Scan = elim (starts_colon g.rest) [
      | none ↦ none
      | some next ↦ elim (starts_colon next) [
        | none ↦ if next =ˢ "" then none else scan_groups fuel grown next
        | some after ↦
            if no_ellipsis scan.ellipsis
            then (if after =ˢ ""
                then some (record grown { ellipsis = some (length grown.groups) })
                else scan_groups fuel (record grown { ellipsis = some (length grown.groups) })
                    after)
            else none
      ]
    ] in
    if g.count == 0 || ltb 4 g.count
    then none
    else if starts_dot g.rest
    then (if (no_ellipsis scan.ellipsis && not (length scan.groups == 6))
          || ltb 6 (length scan.groups)
        then none
        else last)
    else if g.rest =ˢ ""
    then some grown
    else more

value_of : List ℕ → ℕ → ℕ
value_of [] acc = acc
value_of (g ∷ gs) acc = value_of gs (acc * 65536 + g)

-- the groups after the ellipsis move to the end
expanded : Scan → Option ℕ
unfolding value_of
expanded scan = elim scan.ellipsis [
  | none ↦ if length scan.groups == 8 then some (value_of scan.groups 0) else none
  | some at ↦
      if ltb (length scan.groups) 8
      then some
          (value_of (take at scan.groups) 0 * 65536 ^ (8 - at) + value_of (drop at scan.groups) 0)
      else none
]

scanned : Option Scan → Option ℕ
unfolding expanded
scanned none = none
scanned (some scan) = expanded scan

abbrev start : Scan
start = record { groups = []; ellipsis = none }

ipv6_of : String → Option ℕ
unfolding scan_groups scanned starts_colon
ipv6_of s = elim (starts_colon s) [
  | none ↦ scanned (scan_groups 8 start s)
  | some rest ↦ elim (starts_colon rest) [
    | none ↦ none
    | some after ↦
        if after =ˢ ""
        then some 0
        else scanned (scan_groups 8 (record { groups = []; ellipsis = some 0 }) after)
  ]
]

-- the text before the first percent sign and the zone after it, if there is one
split_zone : String → String × Option String
split_zone Text.[] = (Text.[], none)
split_zone (Text.◌∷◌ c s) =
    let rest = split_zone s in
    if code c == b'%' then (Text.[], some s) else (Text.◌∷◌ c rest.0, rest.1)

zoned_addr : Option ℕ → Option String → Addr
zoned_addr none _ = no_addr
zoned_addr (some n) none = addr6 n ""
zoned_addr (some n) (some zone) = if zone =ˢ "" then no_addr else addr6 n zone

plain_addr : Option ℕ → Addr
plain_addr none = no_addr
plain_addr (some n) = addr4 n

-- which kind of address the text is, by the first of the three characters
pub data Shape : Type 0 where
  dots colons neither : Shape

shape_of : String → Shape
shape_of Text.[] = neither
shape_of (Text.◌∷◌ c s) =
    let rest = shape_of s in
    if code c == b'.'
    then dots
    else if code c == b':'
    then colons
    else if code c == b'%'
    then neither
    else rest

-- ParseAddr, with the address that is not valid in place of an error
unfoldable pub parse_addr : String → Addr
unfolding shape_of ipv4_of plain_addr split_zone ipv6_of zoned_addr
parse_addr s = elim (shape_of s) [
  | dots ↦ plain_addr (ipv4_of s)
  | colons ↦ zoned_addr (ipv6_of (split_zone s).0) (split_zone s).1
  | neither ↦ no_addr
]

parse_run :
    (parse_addr "192.168.10.200" ≡ addr4 3232238280)
    × (parse_addr "192.168.010.1" ≡ no_addr)
    × (parse_addr "1.2.3." ≡ no_addr)
    × (parse_addr "::1" ≡ addr6 1 "")
    × (parse_addr "::" ≡ addr6 0 "")
    × (parse_addr "1::2:3" ≡ addr6 0x00010000000000000000000000020003 "")
    × (parse_addr "1:2:3:4:5:6:7:8" ≡ addr6 0x00010002000300040005000600070008 "")
    × (parse_addr "1:2:3:4:5:6:7:8:9" ≡ no_addr)
    × (parse_addr "1:2:3:4:5:6:7::" ≡ addr6 0x00010002000300040005000600070000 "")
    × (parse_addr "1::2::3" ≡ no_addr)
    × (parse_addr "::ffff:1.2.3.4" ≡ addr6 0xffff01020304 "")
    × (parse_addr "fe80::1%eth0" ≡ addr6 0xfe800000000000000000000000000001 "eth0")
    × (parse_addr "1:" ≡ no_addr)
unfolding parse_addr
parse_run = (refl, refl, refl, refl, refl, refl, refl, refl, refl, refl, refl, refl, refl)
