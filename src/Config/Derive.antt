-- ===== src/Config/Derive.antt =====
-- internal/config/derive.go: the routing tables and firewall marks that regied hands out.
-- A resource is its name and the fields of its spec that the file reads; the forwards carry the
-- family of their target, or `none` for a target that is missing or whose address is not valid.
pub mod Allocation
mod Settled
pub mod PinCases
pub mod Pins
pub mod Rounds
pub mod Distinct
mod Examples
use Prim.Native.Nat.{Ordering, compare}
use Prim.Native.String as Text
use regied.Prelude.{
  ℕ, zero, suc, ◌+◌, ◌%◌, ◌^◌, String, Bool, true, false, not, ◌&&◌, ◌||◌, Option, none, some, List,
  [], ◌∷◌, ◌++◌, length, if◌then◌else◌, ℤ, pos, negsuc, ◌=ℤ◌, mem_ℤ, compare_ℤ, get, put, sort,
  or_else, ◌=ˢ◌,
}

pub record Allocator : Type 0 where
  pub next_ : ℕ
  pub taken : List ℤ

unfoldable pub new_allocator : ℕ → Allocator
new_allocator first = record { next_ = first; taken = [] }

unfoldable pub reserve : Allocator → ℤ → Allocator
reserve a n = record a { taken = n ∷ a.taken }

-- `for a.taken[a.next_] || !usable(a.next_) { a.next_++ }`: the number the loop stops at
skip : ℕ → (ℕ → Bool) → List ℤ → ℕ → ℕ
skip zero usable taken n = n
skip (suc fuel) usable taken n =
    let further = skip fuel usable taken (n + 1) in
    if mem_ℤ (pos n) taken then further else if not (usable n) then further else n

-- Both callers' `usable` refuses at most four numbers, so the fuel covers every refusal.
unfoldable pub next : (ℕ → Bool) → Allocator → ℕ × Allocator
unfolding skip
next usable a =
    let n = skip (length a.taken + 5) usable a.taken a.next_ in
    (n, record { next_ = n + 1; taken = pos n ∷ a.taken })

abbrev pub first_derived_table : ℕ
first_derived_table = 100

abbrev pub first_derived_mark : ℕ
first_derived_mark = 256

abbrev pub reserved_tables : List ℤ
reserved_tables = pos 0 ∷ pos 253 ∷ pos 254 ∷ pos 255 ∷ []

-- the two arguments of `next`
abbrev pub not_reserved : ℕ → Bool
not_reserved n = not (mem_ℤ (pos n) reserved_tables)

abbrev pub any_number : ℕ → Bool
any_number n = true

-- uint32(n)
abbrev pub u32 : ℕ → ℕ
u32 n = n % 2 ^ 32

pub record Policy : Type 0 where
  pub name : String
  pub family : String
  pub priority : Option ℤ
  pub table : Option ℤ
  pub mark : Option ℕ

-- FamilyOrDefault
unfoldable pub family_or_default : Policy → String
family_or_default p = if p.family =ˢ "" then "ipv4" else p.family

unfoldable pub priority_of : Policy → ℤ
priority_of p = elim p.priority [ none ↦ pos (2 ^ 30) | some n ↦ n ]

pub record PolicyRouting : Type 0 where
  pub table : ℤ
  pub mark : ℕ
  pub table_pinned : Bool
  pub mark_pinned : Bool

abbrev pub zero_routing : PolicyRouting
zero_routing = record { table = pos 0; mark = 0; table_pinned = false; mark_pinned = false }

-- what `v.errorf` is called with, by the resource's name
pub data PinProblem : Type 0 where
  reserved_table : String → ℤ → PinProblem
  table_in_use : String → String → ℤ → PinProblem
  zero_mark : String → PinProblem
  mark_in_use : String → String → ℕ → PinProblem

-- tableOwner and markOwner
unfoldable pub owner_of : ℤ → List (ℤ × String) → Option String
owner_of k [] = none
owner_of k ((j, v) ∷ m) = if j =ℤ k then some v else owner_of k m

pub record PinState : Type 0 where
  pub routing : List (String × PolicyRouting)
  pub tables : Allocator
  pub marks : Allocator
  pub table_owner : List (ℤ × String)
  pub mark_owner : List (ℤ × String)
  pub unpinned : List Policy
  pub problems : List PinProblem

unfoldable pub report : PinProblem → PinState → PinState
report e s = record s { problems = s.problems ++ e ∷ [] }

-- the `if spec.Table != nil` of the first loop, with what `derived` is after it
pub pin_table : String → Option ℤ → PinState → PolicyRouting → PinState × PolicyRouting
unfolding report reserve
pin_table name none s d = (s, d)
pin_table name (some table) s d =
    if mem_ℤ table reserved_tables
    then (report (reserved_table name table) s, d)
    else elim (owner_of table s.table_owner) [
      | some owner ↦ (report (table_in_use name owner table) s, d)
      | none ↦ (
        record s { table_owner = (table, name) ∷ s.table_owner; tables = reserve s.tables table },
        record d { table = table; table_pinned = true },
      )
    ]

-- the `if spec.Mark != nil` of the first loop
pub pin_mark : String → Option ℕ → PinState → PolicyRouting → PinState × PolicyRouting
unfolding report reserve
pin_mark name none s d = (s, d)
pin_mark name (some zero) s d = (report (zero_mark name) s, d)
pin_mark name (some (suc m)) s d = elim (owner_of (pos (suc m)) s.mark_owner) [
  | some owner ↦ (report (mark_in_use name owner (suc m)) s, d)
  | none ↦ (
    record s {
      mark_owner = (pos (suc m), name) ∷ s.mark_owner;
      marks = reserve s.marks (pos (suc m));
    },
    record d { mark = suc m; mark_pinned = true },
  )
]

-- one round of the first loop
unfoldable pub pin : PinState → Policy → PinState
unfolding pin_table pin_mark
pin s p =
    let (s1, d1) = pin_table p.name p.table s zero_routing in
    let (s2, d2) = pin_mark p.name p.mark s1 d1 in
    record s2 {
      routing = put p.name d2 s2.routing;
      unpinned =
          if not d2.table_pinned || not d2.mark_pinned then s2.unpinned ++ p ∷ [] else s2.unpinned;
    }

unfoldable pub pin_all : PinState → List Policy → PinState
unfolding pin
pin_all s [] = s
pin_all s (p ∷ ps) = pin_all (pin s p) ps

abbrev pub pin_start : PinState
pin_start = record {
  routing = [];
  tables = record { next_ = first_derived_table; taken = [] };
  marks = record { next_ = first_derived_mark; taken = [] };
  table_owner = [];
  mark_owner = [];
  unpinned = [];
  problems = [];
}

-- the order the policies are evaluated in
unfoldable pub compare_policies : Policy → Policy → Ordering
unfolding family_or_default priority_of
compare_policies a b =
    or_else (Text.compare (family_or_default a) (family_or_default b))
      (or_else (compare_ℤ (priority_of a) (priority_of b)) (Text.compare a.name b.name))

pub record AllocState : Type 0 where
  pub routing : List (String × PolicyRouting)
  pub tables : Allocator
  pub marks : Allocator

pub allocate_table : PolicyRouting → Allocator → PolicyRouting × Allocator
unfolding next
allocate_table d tables =
    if d.table_pinned
    then (d, tables)
    else let (n, tables') = next not_reserved tables in (record d { table = pos n }, tables')

pub allocate_mark : PolicyRouting → Allocator → PolicyRouting × Allocator
unfolding next
allocate_mark d marks =
    if d.mark_pinned
    then (d, marks)
    else let (n, marks') = next any_number marks in (record d { mark = u32 n }, marks')

abbrev pub found_or_zero : Option PolicyRouting → PolicyRouting
found_or_zero none = zero_routing
found_or_zero (some d) = d

-- one round of the second loop
unfoldable pub allocate : AllocState → Policy → AllocState
unfolding allocate_table allocate_mark
allocate s p =
    let d = found_or_zero (get p.name s.routing) in
    let (d1, tables') = allocate_table d s.tables in
    let (d2, marks') = allocate_mark d1 s.marks in
    record { routing = put p.name d2 s.routing; tables = tables'; marks = marks' }

unfoldable pub allocate_all : AllocState → List Policy → AllocState
unfolding allocate
allocate_all s [] = s
allocate_all s (p ∷ ps) = allocate_all (allocate s p) ps

-- the policies' half of deriveRouting
unfoldable pub derive_policies : List Policy → AllocState
unfolding pin_all allocate_all compare_policies
derive_policies policies =
    let s = pin_all pin_start policies in
    allocate_all (record { routing = s.routing; tables = s.tables; marks = s.marks })
      (sort compare_policies s.unpinned)
