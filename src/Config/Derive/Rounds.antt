-- ===== src/Config/Derive/Rounds.antt =====
-- One round of deriveRouting's second loop: the number that it settles.
use regied.Prelude.{
  ℕ, suc, ◌≤◌, ◌≡◌, ◌≢◌, refl, sym, ap, ◌∙◌, inl, inr, String, true, false, Option, none, some,
  List, [], ◌∷◌, length, arith, eq_iff, ℤ, pos, get, put, mem, Bool-cases,
}
use regied.Config.Derive.{
  PolicyRouting, Allocator, next, any_number, not_reserved, reserved_tables, allocate_table,
  allocate_mark, found_or_zero,
}
use regied.Config.Derive.Allocation.{IsCompact, RefusesOnly, next_fresh, next-IsCompact}
use regied.Config.Derive.Settled.{IsSettled, put-fresh, put-kept, tables_column, marks_column}

pub not_reserved-refuses : RefusesOnly not_reserved reserved_tables
not_reserved-refuses n h = ground arith

pub any_number-refuses : RefusesOnly any_number []
any_number-refuses n h = cc

-- A routing that is pinned was found in the map.
found_of_table_pinned :
    (o : Option PolicyRouting) → (found_or_zero o).table_pinned ≡ true → o ≡ some (found_or_zero o)
found_of_table_pinned none h = cc
found_of_table_pinned (some d) h = refl

found_of_mark_pinned :
    (o : Option PolicyRouting) → (found_or_zero o).mark_pinned ≡ true → o ≡ some (found_or_zero o)
found_of_mark_pinned none h = cc
found_of_mark_pinned (some d) h = refl

cons-fewer :
    (name : String) (rest : List String) (k : String)
    → name ≢ k
    → mem k rest ≡ false
    → mem k (name ∷ rest) ≡ false
cons-fewer name rest k ne h = ground (arith, eq_iff name k)

module _ (name : String) (rest : List String) (m : List (String × PolicyRouting))
    (d2 : PolicyRouting) where
  pub allocate_table_settles :
      (tables : Allocator)
      → let d = found_or_zero (get name m) in
        d2.table ≡ (allocate_table d tables).0.table
        → IsSettled tables_column (name ∷ rest) m tables.taken
        → IsSettled tables_column rest
            (put name d2 m)
            (allocate_table (found_or_zero (get name m)) tables).1.taken
  unfolding allocate_table
  allocate_table_settles tables is h =
      let d = found_or_zero (get name m) in
      elim (Bool-cases d.table_pinned) [
        | inl pinned ↦
            let same : d2.table ≡ d.table = rw pinned at is in
            rw pinned (
              put-kept tables_column (name ∷ rest) rest m tables.taken name d2 d
                (cons-fewer name rest) (found_of_table_pinned (get name m) pinned) pinned same h)
        | inr unpinned ↦
            let (free, good, takes, above, after) =
              next_fresh not_reserved reserved_tables tables not_reserved-refuses (omega arith) in
            let same : d2.table ≡ pos (next not_reserved tables).0 = rw unpinned at is in
            rw (unpinned, takes)
              (rw (← same) (
                put-fresh tables_column (name ∷ rest) rest m tables.taken name d2
                  (cons-fewer name rest) (rw same free) (rw same (ground (arith, good))) h))
      ]

  pub allocate_mark_settles :
      (d : PolicyRouting) (marks : Allocator) (k : ℕ)
      → d.mark_pinned ≡ (found_or_zero (get name m)).mark_pinned
      → d.mark ≡ (found_or_zero (get name m)).mark
      → d2.mark ≡ (allocate_mark d marks).0.mark
      → IsCompact 256 [] marks
      → 256 ≤ marks.next_
      → length marks.taken ≤ k
      → k ≤ 2000000000
      → IsSettled marks_column (name ∷ rest) m marks.taken
      → IsSettled marks_column rest (put name d2 m) (allocate_mark d marks).1.taken
        × IsCompact 256 [] (allocate_mark d marks).1
        × (256 ≤ (allocate_mark d marks).1.next_)
        × (length (allocate_mark d marks).1.taken ≤ suc k)
  unfolding allocate_mark
  allocate_mark_settles d marks k pin num is compact started few small h =
      let d0 = found_or_zero (get name m) in
      elim (Bool-cases d.mark_pinned) [
        | inl pinned ↦
            let same : d2.mark ≡ d0.mark = (rw pinned at is) ∙ num in
            rw pinned (
              put-kept marks_column (name ∷ rest) rest m marks.taken name d2 d0
                  (cons-fewer name rest) (found_of_mark_pinned (get name m) (sym pin ∙ pinned))
                  (sym pin ∙ pinned) (ap pos same) h,
              compact,
              started,
              omega arith,
            )
        | inr unpinned ↦
            let n = (next any_number marks).0 in
            let (free, good, takes, above, after) =
              next_fresh any_number [] marks any_number-refuses (omega arith) in
            let (compact', most) =
              next-IsCompact any_number 256 [] marks any_number-refuses compact in
            let same : d2.mark ≡ n = (rw unpinned at is) ∙ omega arith in
            let grown = ap (λ (t : List ℤ). length t) takes in
            rw unpinned (
              rw takes (
                  rw (← ap pos same) (
                    put-fresh marks_column (name ∷ rest) rest m marks.taken name d2
                      (cons-fewer name rest) (rw same free)
                      (rw same (ground (arith, above, started))) h)),
              compact',
              omega (arith, after, above, started),
              omega arith,
            )
      ]
