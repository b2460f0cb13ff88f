-- ===== src/Api/Scalars.antt =====
-- internal/apis/v1alpha1/scalars.go and derived.go: the values that the fields of the declaration hold
-- once they are decoded. A Go string type is a text, whose zero value is empty; a pointer is an
-- option; a duration is its nanoseconds, which the decoder takes only if they are positive.
use regied.Prelude.{
  ℕ, ◌+◌, ◌-◌, String, Bool, ◌&&◌, Option, none, some, if◌then◌else◌, ◌==◌, ◌=ˢ◌, ◌⋅◌, decimal, ℤ,
  pos, negsuc, is_some,
}
use regied.Api.Netip.{Addr, Prefix, is4, is_valid_prefix, addr_text, prefix_text}

abbrev pub family_ipv4 : String
family_ipv4 = "ipv4"

abbrev pub family_ipv6 : String
family_ipv6 = "ipv6"

-- familyOf
unfoldable pub family_of : Addr → String
unfolding is4
family_of a = if is4 a then family_ipv4 else family_ipv6

abbrev pub bool_or : Option Bool → Bool → Bool
bool_or none fallback = fallback
bool_or (some b) fallback = b

-- %d
unfoldable pub integer_text : ℤ → String
unfolding decimal
integer_text (pos n) = decimal n
integer_text (negsuc n) = "-" ⋅ decimal (n + 1)

-- a range of sources, written as a prefix or as its first and last address
pub record SourceRange : Type 0 where
  pub prefix : Prefix
  pub from : Addr
  pub to : Addr

unfoldable pub is_prefix : SourceRange → Bool
unfolding is_valid_prefix
is_prefix r = is_valid_prefix r.prefix

unfoldable pub range_text : SourceRange → String
unfolding is_prefix prefix_text addr_text
range_text r = if is_prefix r then prefix_text r.prefix else addr_text r.from ⋅ "-" ⋅ addr_text r.to

pub record PortSpec : Type 0 where
  pub from : ℕ
  pub to : ℕ

unfoldable pub ports_text : PortSpec → String
unfolding decimal
ports_text p = if p.from == p.to then decimal p.from else decimal p.from ⋅ "-" ⋅ decimal p.to

-- Width, where the range does not end before it starts, as the decoder sees to
unfoldable pub width : PortSpec → ℕ
width p = p.to + 1 - p.from

pub record Protocol : Type 0 where
  pub name : String
  pub number : ℕ

unfoldable pub is_zero : Protocol → Bool
is_zero p = (p.name =ˢ "") && p.number == 0

unfoldable pub protocol_text : Protocol → String
unfolding decimal
protocol_text p = if p.name =ˢ "" then decimal p.number else p.name

abbrev pub mss_auto : String
mss_auto = "auto"

abbrev pub mss_off : String
mss_off = "off"

abbrev pub mss_fixed : String
mss_fixed = "fixed"

pub record MssClamp : Type 0 where
  pub mode : String
  pub value : ℤ

unfoldable pub resolved : MssClamp → MssClamp
resolved c = if c.mode =ˢ "" then record { mode = mss_auto; value = pos 0 } else c

-- DelegatedPrefixAddr
pub record DelegatedPrefixAddr : Type 0 where
  pub interface_ref : String
  pub subnet_id : Option ℤ
  pub token : String

pub record DerivableAddr : Type 0 where
  pub literal : Addr
  pub from_delegated_prefix : Option DelegatedPrefixAddr

abbrev pub is_derived_addr : DerivableAddr → Bool
is_derived_addr a = is_some a.from_delegated_prefix

pub record DerivablePrefix : Type 0 where
  pub literal : Prefix
  pub from_delegated_prefix : Option DelegatedPrefixAddr

abbrev pub is_derived_prefix : DerivablePrefix → Bool
is_derived_prefix p = is_some p.from_delegated_prefix
