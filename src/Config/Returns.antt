-- ===== src/Config/Returns.antt =====
-- internal/config/derive.go, deriveForwardReturns and deriveRouting as a whole: the return routing of
-- the uplinks that port forwards are published on, out of the allocators that the policies left.
pub mod Apart
pub mod Published
mod Examples
use Prim.Native.Nat.{Ordering}
use Prim.Native.String as Text
use regied.Prelude.{
  ℕ, String, Bool, true, false, ◌&&◌, Option, none, some, List, [], ◌∷◌, ◌++◌, ◌=ˢ◌, if◌then◌else◌,
  sort, or_else,
}
use regied.Config.Derive.{
  Allocator, next, not_reserved, any_number, u32, Policy, PolicyRouting, derive_policies,
}

-- what is read of a netip.Addr here: whether it is valid, and its family
pub data Address : Type 0 where
  invalid v4 v6 : Address

-- PortForwardSpec, as far as it is read; a nil target is `none`
pub record Forward : Type 0 where
  pub egress_ref : String
  pub target : Option Address

pub record ReturnKey : Type 0 where
  pub uplink : String
  pub family : String

pub record ForwardReturn : Type 0 where
  pub uplink : String
  pub family : String
  pub table : ℕ
  pub mark : ℕ

-- the key that a forward asks for, with familyOf; `none` where the loop goes on without one
unfoldable pub of_address : String → Address → Option ReturnKey
of_address uplink invalid = none
of_address uplink v4 = some (record { uplink = uplink; family = "ipv4" })
of_address uplink v6 = some (record { uplink = uplink; family = "ipv6" })

unfoldable pub of_target : String → Option Address → Option ReturnKey
unfolding of_address
of_target uplink none = none
of_target uplink (some address) = of_address uplink address

unfoldable pub asked_key : Forward → Option ReturnKey
unfolding of_target
asked_key f = if f.egress_ref =ˢ "" then none else of_target f.egress_ref f.target

unfoldable pub same_key : ReturnKey → ReturnKey → Bool
same_key a b = (a.uplink =ˢ b.uplink) && (a.family =ˢ b.family)

unfoldable pub has_key : ReturnKey → List ReturnKey → Bool
unfolding same_key
has_key k [] = false
has_key k (j ∷ js) = let rest = has_key k js in if same_key j k then true else rest

-- one round of the first loop; `seen` holds what is in `keys`
unfoldable pub add_key : Option ReturnKey → List ReturnKey → List ReturnKey
unfolding has_key
add_key none keys = keys
add_key (some k) keys = if has_key k keys then keys else keys ++ k ∷ []

unfoldable pub keys_of : List ReturnKey → List Forward → List ReturnKey
unfolding add_key asked_key
keys_of keys [] = keys
keys_of keys (f ∷ fs) = keys_of (add_key (asked_key f) keys) fs

unfoldable pub compare_keys : ReturnKey → ReturnKey → Ordering
compare_keys a b = or_else (Text.compare a.family b.family) (Text.compare a.uplink b.uplink)

-- the second loop
unfoldable pub hand_out : List ReturnKey → Allocator → Allocator → List ForwardReturn
unfolding next
hand_out [] tables marks = []
hand_out (k ∷ ks) tables marks =
    let (table, tables') = next not_reserved tables in
    let (mark, marks') = next any_number marks in
    record { uplink = k.uplink; family = k.family; table = table; mark = u32 mark }
    ∷ hand_out ks tables' marks'

unfoldable pub derive_forward_returns : List Forward → Allocator → Allocator → List ForwardReturn
unfolding keys_of hand_out compare_keys
derive_forward_returns forwards tables marks =
    hand_out (sort compare_keys (keys_of [] forwards)) tables marks

-- deriveRouting
unfoldable pub derive_routing :
    List Policy → List Forward → List (String × PolicyRouting) × List ForwardReturn
unfolding derive_policies derive_forward_returns
derive_routing policies forwards =
    let s = derive_policies policies in
    (s.routing, derive_forward_returns forwards s.tables s.marks)
