-- ===== src/Config/Checks/Names.antt =====
-- internal/config/validate.go, the checks of names that reach the kernel and of the members of bridges.
use Prim.Native.String as Text
use regied.Prelude.{
  ℕ, String, not, Option, none, some, List, [], ◌∷◌, if◌then◌else◌, leb, ◌⋅◌, quote, decimal, get,
  put,
}
use regied.Prelude.Logged.{◌>>◌}
use regied.Api.Link.{InterfaceSpec, Bridge}
use regied.Api.Document.{Resource, kind_of, is_link}
use regied.Config.Model.{as_interface}
use regied.Config.Resolve.{Check, errorf, skip, when, each_at, at}
use regied.Config.Checks.Firewall.{is_empty_list}

abbrev pub max_link_name_length : ℕ
max_link_name_length = 15

-- checkLinkName, by the bytes of the name
unfoldable pub check_link_name : Resource → String → String → String → Check (Unit {0})
unfolding decimal
check_link_name r field name because =
    if leb (Text.len name) max_link_name_length
    then skip
    else errorf r field (
        quote name
        ⋅ " is "
        ⋅ decimal (Text.len name)
        ⋅ " characters; "
        ⋅ because
        ⋅ "a link name the kernel takes is at most "
        ⋅ decimal max_link_name_length)

check_members : Resource → Option Bridge → Check (Unit {0})
unfolding check_link_name each_at
check_members r none = skip
check_members r (some b) =
    each_at (λ i member. check_link_name r (at "spec.bridge.members" i) member "") 0 b.members

abbrev pub named_after : String
named_after = "the link this puts on the host is named after it, and "

unfoldable pub link_names_of : Resource → Option InterfaceSpec → Check (Unit {0})
unfolding check_link_name check_members
link_names_of r none = check_link_name r "metadata.name" r.name named_after
link_names_of r (some s) = do check_link_name r "spec.ifname" s.ifname ""; check_members r s.bridge

unfoldable pub check_link_names : List Resource → Check (Unit {0})
unfolding link_names_of is_link kind_of as_interface
check_link_names [] = skip
check_link_names (r ∷ rs) = do
  when (is_link (kind_of r.spec)) (link_names_of r (as_interface r.spec))
  check_link_names rs

-- the bridge of each member, by the bridge's kernel name
put_members : String → List String → List (String × String) → List (String × String)
put_members bridge [] m = m
put_members bridge (x ∷ xs) m = put_members bridge xs (put x bridge m)

members_in : Option InterfaceSpec → List (String × String) → List (String × String)
unfolding put_members
members_in none m = m
members_in (some s) m = elim s.bridge [ none ↦ m | some b ↦ put_members s.ifname b.members m ]

member_of : List (String × String) → List Resource → List (String × String)
unfolding members_in as_interface
member_of m [] = m
member_of m (r ∷ rs) = member_of (members_in (as_interface r.spec) m) rs

carries_addresses : Resource → InterfaceSpec → Option String → Check (Unit {0})
unfolding is_empty_list
carries_addresses r s none = skip
carries_addresses r s (some bridge) = when (not (is_empty_list s.addresses)) (
    errorf r "spec.addresses" (
      quote s.ifname
      ⋅ " is a member of the bridge "
      ⋅ quote bridge
      ⋅ " and cannot carry addresses of its own"))

check_member : List (String × String) → Resource → Option InterfaceSpec → Check (Unit {0})
unfolding carries_addresses
check_member m r none = skip
check_member m r (some s) = carries_addresses r s (get s.ifname m)

check_each_member : List (String × String) → List Resource → Check (Unit {0})
unfolding check_member as_interface
check_each_member m [] = skip
check_each_member m (r ∷ rs) = do check_member m r (as_interface r.spec); check_each_member m rs

-- checkBridgeMembers
unfoldable pub check_bridge_members : List Resource → Check (Unit {0})
unfolding check_each_member member_of
check_bridge_members rs = check_each_member (member_of [] rs) rs
