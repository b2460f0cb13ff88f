-- ===== src/Config/Derive/Distinct.antt =====
-- deriveRouting gives no two policies one table or one mark, and nobody the kernel's own tables.
use native.Mathlib.Nat.{add-zero}
use regied.Prelude.{
  ℕ, suc, ◌+◌, ◌≤◌, ◌≡◌, ◌≢◌, refl, sym, ap, ◌∙◌, inr, String, false, some, List, [], ◌∷◌, map,
  length, arith, pos, mem_ℤ, get, mem, sort, mem-sort, length-sort,
}
use regied.Config.Derive.{
  Policy, PolicyRouting, Allocator, AllocState, reserved_tables, allocate_table, allocate_mark,
  allocate, allocate_all, found_or_zero, pin_all, pin_start, compare_policies, derive_policies,
}
use regied.Config.Derive.Allocation.{IsCompact}
use regied.Config.Derive.Settled.{IsSettled, IsSettled-relax, tables_column, marks_column}
use regied.Config.Derive.Pins.{pin_all-PinInv, pin_start-PinInv}
use regied.Config.Derive.Rounds.{allocate_table_settles, allocate_mark_settles}

-- What holds while the second loop runs; `todo` is the names still to come.
pub record AllocInv (todo : List String) (count : ℕ) (s : AllocState) : Type 0 where
  pub tables : IsSettled tables_column todo s.routing s.tables.taken
  pub marks : IsSettled marks_column todo s.routing s.marks.taken
  pub compact : IsCompact 256 [] s.marks
  pub started : 256 ≤ s.marks.next_
  pub few : length s.marks.taken ≤ count

allocate_table_frame :
    (d : PolicyRouting) (tables : Allocator)
    → ((allocate_table d tables).0.mark_pinned ≡ d.mark_pinned)
      × ((allocate_table d tables).0.mark ≡ d.mark)
unfolding allocate_table
allocate_table_frame d tables = ground arith

allocate_mark_frame :
    (d : PolicyRouting) (marks : Allocator) → (allocate_mark d marks).0.table ≡ d.table
unfolding allocate_mark
allocate_mark_frame d marks = ground arith

allocate-AllocInv :
    (p : Policy) (rest : List String) (k : ℕ) (s : AllocState)
    → k ≤ 2000000000
    → AllocInv (p.name ∷ rest) k s
    → AllocInv rest (suc k) (allocate s p)
unfolding allocate
allocate-AllocInv p rest k s small v =
    let d = found_or_zero (get p.name s.routing) in
    let r1 = allocate_table d s.tables in
    let d2 = (allocate_mark r1.0 s.marks).0 in
    let (pin, num) = allocate_table_frame d s.tables in
    let (marks', compact', started', few') =
      allocate_mark_settles p.name rest s.routing d2 r1.0 s.marks k pin num refl v.compact v.started
        v.few small v.marks in
    record {
      tables =
          allocate_table_settles p.name rest s.routing d2 s.tables
            (allocate_mark_frame r1.0 s.marks) v.tables;
      marks = marks';
      compact = compact';
      started = started';
      few = few';
    }

allocate_all-AllocInv :
    (ps : List Policy) (k : ℕ) (s : AllocState)
    → k + length ps ≤ 2000000000
    → AllocInv (map (λ p. p.name) ps) k s
    → AllocInv [] (k + length ps) (allocate_all s ps)
unfolding allocate_all
allocate_all-AllocInv [] k s small v = rw (add-zero k) v
allocate_all-AllocInv (p ∷ ps) k s small v =
    let e : k + suc (length ps) ≡ suc k + length ps = omega arith in
    rw e (
      allocate_all-AllocInv ps (suc k) (allocate s p) (omega arith)
        (allocate-AllocInv p (map (λ q. q.name) ps) k s (omega arith) v))

pub derive_policies-AllocInv :
    (policies : List Policy)
    → length policies ≤ 1000000000
    → AllocInv [] 2000000000 (derive_policies policies)
unfolding derive_policies
derive_policies-AllocInv policies small =
    let s = pin_all pin_start policies in
    let v = pin_all-PinInv 0 pin_start policies pin_start-PinInv in
    let names = map (λ (p : Policy). p.name) s.unpinned in
    let sorted = sort compare_policies s.unpinned in
    let same = λ (k : String). mem-sort (λ (p : Policy). p.name) compare_policies k s.unpinned in
    let relax =
      λ (k : String) (h : mem k (map (λ (p : Policy). p.name) sorted) ≡ false). sym (same k) ∙ h in
    let start : AllocState = record { routing = s.routing; tables = s.tables; marks = s.marks } in
    let w =
      allocate_all-AllocInv sorted (length policies) start
        (omega (arith, length-sort compare_policies s.unpinned, v.waiting))
        (record {
          tables = IsSettled-relax tables_column names _ s.routing s.tables.taken relax v.tables;
          marks = IsSettled-relax marks_column names _ s.routing s.marks.taken relax v.marks;
          compact = v.compact;
          started = v.started;
          few = omega (arith, v.few);
        }) in
    record {
      tables = w.tables;
      marks = w.marks;
      compact = w.compact;
      started = w.started;
      few = omega (arith, w.few, length-sort compare_policies s.unpinned, v.waiting);
    }

-- No two policies of a declaration are given one routing table, nor one mark, whether the numbers
-- are pinned, allocated, or allocated after a pin that was refused. The declaration has at most a
-- billion policies.
pub derive_policies_distinct :
    (policies : List Policy) (n k : String) (r q : PolicyRouting)
    → length policies ≤ 1000000000
    → n ≢ k
    → get n (derive_policies policies).routing ≡ some r
    → get k (derive_policies policies).routing ≡ some q
    → (r.table ≢ q.table) × (r.mark ≢ q.mark)
derive_policies_distinct policies n k r q small ne e f =
    let w = derive_policies-AllocInv policies small in
    (
      w.tables.apart n k r q ne e f (inr refl) (inr refl),
      λ p. w.marks.apart n k r q ne e f (inr refl) (inr refl) (ap pos p),
    )

-- No policy is given a table that the kernel keeps for itself, nor the mark 0, which an unmarked
-- packet carries. The declaration has at most a billion policies.
pub derive_policies_allowed :
    (policies : List Policy) (n : String) (r : PolicyRouting)
    → length policies ≤ 1000000000
    → get n (derive_policies policies).routing ≡ some r
    → (mem_ℤ r.table reserved_tables ≡ false) × (r.mark ≢ 0)
derive_policies_allowed policies n r small e =
    let w = derive_policies-AllocInv policies small in
    let nonzero = w.marks.allowed n r e (inr refl) in
    (w.tables.allowed n r e (inr refl), ground (arith, nonzero))
