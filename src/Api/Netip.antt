-- ===== src/Api/Netip.antt =====
-- What the declaration uses of Go's net/netip: addresses, prefixes, their order and their texts. An
-- address is its value in network order; an IPv6 address carries its zone.
pub mod Parse
use Prim.Native.Nat.{Ordering, compare}
use Prim.Native.String as Text
use regied.Prelude.{
  ℕ, zero, suc, ◌+◌, ◌-◌, ◌*◌, ◌/◌, ◌%◌, ◌^◌, String, Bool, true, false, not, ◌&&◌, ◌||◌, List, [],
  ◌∷◌, ◌++◌, length, take, drop, get_or, if◌then◌else◌, ◌≡◌, refl, leb, ltb, ◌==◌, decimal, ◌⋅◌,
  ◌=ˢ◌, or_else, hexadecimal,
}

-- netip.Addr, whose zero value is not valid
pub data Addr : Type 0 where
  no_addr : Addr
  addr4 : ℕ → Addr
  addr6 : ℕ → String → Addr

unfoldable pub is_valid : Addr → Bool
is_valid no_addr = false
is_valid (addr4 n) = true
is_valid (addr6 n zone) = true

unfoldable pub is4 : Addr → Bool
is4 (addr4 n) = true
is4 _ = false

unfoldable pub is6 : Addr → Bool
is6 (addr6 n zone) = true
is6 _ = false

-- an IPv4 address mapped into IPv6
unfoldable pub is4in6 : Addr → Bool
is4in6 (addr6 n zone) = n / 2 ^ 32 == 65535
is4in6 _ = false

unfoldable pub zone_of : Addr → String
zone_of (addr6 n zone) = zone
zone_of _ = ""

-- Compare orders by length, then by value, then by zone.
unfoldable pub compare_addr : Addr → Addr → Ordering
compare_addr no_addr no_addr = Ordering.eq
compare_addr no_addr (addr4 _) = Ordering.lt
compare_addr no_addr (addr6 _ _) = Ordering.lt
compare_addr (addr4 _) no_addr = Ordering.gt
compare_addr (addr4 a) (addr4 b) = compare a b
compare_addr (addr4 _) (addr6 _ _) = Ordering.lt
compare_addr (addr6 _ _) no_addr = Ordering.gt
compare_addr (addr6 _ _) (addr4 _) = Ordering.gt
compare_addr (addr6 a s) (addr6 b t) = or_else (compare a b) (Text.compare s t)

is_before : Ordering → Bool
is_before Ordering.lt = true
is_before _ = false

unfoldable pub less : Addr → Addr → Bool
unfolding compare_addr is_before
less a b = is_before (compare_addr a b)

dotted : ℕ → String
dotted n =
    decimal (n / 2 ^ 24 % 256)
    ⋅ "."
    ⋅ decimal (n / 2 ^ 16 % 256)
    ⋅ "."
    ⋅ decimal (n / 2 ^ 8 % 256)
    ⋅ "."
    ⋅ decimal (n % 256)

-- the eight groups of sixteen bits
groups : ℕ → List ℕ
groups n =
    n / 2 ^ 112
    ∷ n / 2 ^ 96 % 65536
    ∷ n / 2 ^ 80 % 65536
    ∷ n / 2 ^ 64 % 65536
    ∷ n / 2 ^ 48 % 65536
    ∷ n / 2 ^ 32 % 65536
    ∷ n / 2 ^ 16 % 65536
    ∷ n % 65536
    ∷ []

-- how many zeros a list begins with
zeros : List ℕ → ℕ
zeros [] = 0
zeros (g ∷ gs) = let rest = zeros gs in if g == 0 then suc rest else 0

-- where the longest run of zeros starts and how long it is: the first of those of one length
longest : ℕ → List ℕ → ℕ × ℕ → ℕ × ℕ
unfolding zeros
longest i [] best = best
longest i (g ∷ gs) best =
    longest (i + 1) gs (if ltb best.1 (zeros (g ∷ gs)) then (i, zeros (g ∷ gs)) else best)

colons : List ℕ → String
colons [] = ""
colons (g ∷ []) = hexadecimal g
colons (g ∷ h ∷ gs) = hexadecimal g ⋅ ":" ⋅ colons (h ∷ gs)

-- a run of two groups or more is written as two colons
grouped : List ℕ → ℕ × ℕ → String
unfolding colons
grouped gs run =
    if ltb run.1 2
    then colons gs
    else colons (take run.0 gs) ⋅ "::" ⋅ colons (drop (run.0 + run.1) gs)

zoned : String → String
zoned zone = if zone =ˢ "" then "" else "%" ⋅ zone

unfoldable pub addr_text : Addr → String
unfolding dotted groups longest grouped zoned is4in6 decimal hexadecimal
addr_text no_addr = "invalid IP"
addr_text (addr4 n) = dotted n
addr_text (addr6 n zone) =
    if is4in6 (addr6 n zone)
    then "::ffff:" ⋅ dotted (n % 2 ^ 32) ⋅ zoned zone
    else grouped (groups n) (longest 0 (groups n) (0, 0)) ⋅ zoned zone

-- netip.Prefix; its zero value, whose `bits_plus_one` is 0, is not valid
pub record Prefix : Type 0 where
  pub addr : Addr
  pub bits_plus_one : ℕ

abbrev pub no_prefix : Prefix
no_prefix = record { addr = no_addr; bits_plus_one = 0 }

unfoldable pub is_valid_prefix : Prefix → Bool
is_valid_prefix p = ltb 0 p.bits_plus_one

unfoldable pub prefix_text : Prefix → String
unfolding is_valid_prefix addr_text
prefix_text p =
    if is_valid_prefix p
    then addr_text p.addr ⋅ "/" ⋅ decimal (p.bits_plus_one - 1)
    else "invalid Prefix"

-- the bits of an address that a prefix does not fix are `width - bits`
same_top : ℕ → ℕ → ℕ → ℕ → Bool
same_top width bits a b = a / 2 ^ (width - bits) == b / 2 ^ (width - bits)

in_prefix : ℕ → Addr → Addr → Bool
unfolding same_top
in_prefix bits (addr4 a) (addr4 b) = same_top 32 bits a b
in_prefix bits (addr6 a _) (addr6 b zone) = (zone =ˢ "") && same_top 128 bits a b
in_prefix bits _ _ = false

-- Contains, which is the same for a prefix and for the prefix masked
unfoldable pub contains : Prefix → Addr → Bool
unfolding is_valid_prefix in_prefix
contains p a = is_valid_prefix p && in_prefix (p.bits_plus_one - 1) p.addr a

netip_run :
    (addr_text (addr4 3232238280) ≡ "192.168.10.200")
    × (addr_text (addr6 (0x20010db8 * 2 ^ 96 + 0x530) "") ≡ "2001:db8::530")
    × (addr_text (addr6 1 "") ≡ "::1")
    × (addr_text (addr6 0 "") ≡ "::")
    × (addr_text (addr6 (0xfe80 * 2 ^ 112 + 0x10000) "eth0") ≡ "fe80::1:0%eth0")
    × (addr_text (addr6 (65535 * 2 ^ 32 + 1) "") ≡ "::ffff:0.0.0.1")
unfolding addr_text
netip_run = (refl, refl, refl, refl, refl, refl)
