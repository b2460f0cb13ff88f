-- ===== src/Config/Derive/Pins.antt =====
-- The first loop of deriveRouting: pinned numbers are taken once, and the rest of the policies wait.
use native.Mathlib.Nat.{add-zero}
use regied.Prelude.{
  not, ◌||◌, length-append, ℕ, suc, ◌+◌, ◌≤◌, ◌≡◌, refl, ap, ◌⊎◌, inl, inr, String, true, false,
  Option, List, [], ◌∷◌, ◌++◌, map, length, arith, eq_iff, ℤ, pos, put, mem, if◌then◌else◌, get-nil,
}
use regied.Config.Derive.{
  Allocator, Policy, PolicyRouting, PinState, pin_table, pin_mark, pin, pin_all, pin_start,
  owner_of, zero_routing, reserve,
}
use regied.Config.Derive.Allocation.{IsCompact, reserve-IsCompact}
use regied.Config.Derive.Settled.{IsSettled, put-fresh, put-waiting, tables_column, marks_column}
use regied.Config.Derive.PinCases.{
  OwnersComplete, owners_cons, Fewer, pin_table_cases, pin_mark_cases, pin_table_frame,
  pin_mark_frame,
}

-- Pinning keeps the settled numbers apart: the name's own number is new, or the name waits.
module _ (name : String) (s : PinState) (d2 : PolicyRouting) (todo todo' : List String)
    (fewer : Fewer todo todo') where
  pin_table_settles :
      (o : Option ℤ)
      → d2.table ≡ (pin_table name o s zero_routing).1.table
      → d2.table_pinned ≡ (pin_table name o s zero_routing).1.table_pinned
      → (d2.table_pinned ≡ false → mem name todo' ≡ true)
      → OwnersComplete s.table_owner s.tables.taken
      → IsSettled tables_column todo s.routing s.tables.taken
      → IsSettled tables_column todo'
          (put name d2 s.routing)
          (pin_table name o s zero_routing).0.tables.taken
        × OwnersComplete
            (pin_table name o s zero_routing).0.table_owner
            (pin_table name o s zero_routing).0.tables.taken
  unfolding reserve
  pin_table_settles o p q waits own h = elim (pin_table_cases name o s zero_routing) [
    | inl u ↦
        let idle : d2.table_pinned ≡ false = cc (q, u.routed) in
        rw (u.taken, u.owners)
          (
            put-waiting tables_column todo todo' s.routing s.tables.taken name d2 (λ k _. fewer k)
                idle (waits idle) h,
            own,
          )
    | inr (t, u) ↦
        let is : d2.table ≡ t = cc (p, u.routed) in
        rw (u.taken, u.owners)
          (
            rw (← is) (
                put-fresh tables_column todo todo' s.routing s.tables.taken name d2 (λ k _. fewer k)
                  (rw is (own t u.alone)) (rw is u.ours) h),
            owners_cons t name s.table_owner s.tables.taken own,
          )
  ]

  pin_mark_settles :
      (o : Option ℕ) (d : PolicyRouting)
      → d.mark_pinned ≡ false
      → d2.mark ≡ (pin_mark name o s d).1.mark
      → d2.mark_pinned ≡ (pin_mark name o s d).1.mark_pinned
      → (d2.mark_pinned ≡ false → mem name todo' ≡ true)
      → OwnersComplete s.mark_owner s.marks.taken
      → IsSettled marks_column todo s.routing s.marks.taken
      → IsSettled marks_column todo' (put name d2 s.routing) (pin_mark name o s d).0.marks.taken
        × OwnersComplete (pin_mark name o s d).0.mark_owner (pin_mark name o s d).0.marks.taken
  unfolding reserve
  pin_mark_settles o d plain p q waits own h = elim (pin_mark_cases name o s d) [
    | inl u ↦
        let idle : d2.mark_pinned ≡ false =
          cc (q, ap (λ (r : PolicyRouting). r.mark_pinned) u.routed) in
        rw (u.taken, u.owners)
          (
            put-waiting marks_column todo todo' s.routing s.marks.taken name d2 (λ k _. fewer k)
                idle (waits idle) h,
            own,
          )
    | inr (m, u) ↦
        let is : d2.mark ≡ m = cc (p, u.routed) in
        rw (u.taken, u.owners)
          (
            rw (← is) (
                put-fresh marks_column todo todo' s.routing s.marks.taken name d2 (λ k _. fewer k)
                  (rw is (own (pos m) u.alone)) (rw is u.ours) h),
            owners_cons (pos m) name s.mark_owner s.marks.taken own,
          )
  ]

-- What holds after some of the policies went through the first loop.
pub record PinInv (count : ℕ) (s : PinState) : Type 0 where
  pub tables : IsSettled tables_column (map (λ p. p.name) s.unpinned) s.routing s.tables.taken
  pub marks : IsSettled marks_column (map (λ p. p.name) s.unpinned) s.routing s.marks.taken
  pub table_owners : OwnersComplete s.table_owner s.tables.taken
  pub mark_owners : OwnersComplete s.mark_owner s.marks.taken
  pub compact : IsCompact 256 [] s.marks
  pub started : 256 ≤ s.marks.next_
  pub few : length s.marks.taken ≤ count
  pub waiting : length s.unpinned ≤ count

mem-append_last :
    (p : Policy) (ps : List Policy) → mem p.name (map (λ q. q.name) (ps ++ p ∷ [])) ≡ true
mem-append_last p [] = ground (arith, eq_iff p.name p.name)
mem-append_last p (q ∷ ps) = ground (arith, mem-append_last p ps)

mem_of_append :
    (k : String) (p : Policy) (ps : List Policy)
    → mem k (map (λ q. q.name) (ps ++ p ∷ [])) ≡ false
    → mem k (map (λ q. q.name) ps) ≡ false
mem_of_append k p [] h = refl
mem_of_append k p (q ∷ ps) h = ground (arith, mem_of_append k p ps)

abbrev waiting_list : PolicyRouting → List Policy → Policy → List Policy
waiting_list d us p = if not d.table_pinned || not d.mark_pinned then us ++ p ∷ [] else us

waiting_list-mem :
    (d : PolicyRouting) (us : List Policy) (p : Policy)
    → (d.table_pinned ≡ false) ⊎ (d.mark_pinned ≡ false)
    → mem p.name (map (λ q. q.name) (waiting_list d us p)) ≡ true
waiting_list-mem d us p h = ground (arith, mem-append_last p us)

waiting_list-Fewer :
    (d : PolicyRouting) (us : List Policy) (p : Policy)
    → Fewer (map (λ q. q.name) us) (map (λ q. q.name) (waiting_list d us p))
waiting_list-Fewer d us p k h = ground (arith, mem_of_append k p us)

waiting_list-length :
    (d : PolicyRouting) (us : List Policy) (p : Policy)
    → length (waiting_list d us p) ≤ suc (length us)
waiting_list-length d us p = ground (arith, length-append us (p ∷ []))

pin_mark-IsCompact :
    (k : ℕ) (name : String) (o : Option ℕ) (s : PinState) (d : PolicyRouting)
    → IsCompact 256 [] s.marks
    → length s.marks.taken ≤ k
    → IsCompact 256 [] (pin_mark name o s d).0.marks
      × (length (pin_mark name o s d).0.marks.taken ≤ suc k)
      × ((pin_mark name o s d).0.marks.next_ ≡ s.marks.next_)
unfolding reserve
pin_mark-IsCompact k name o s d c few = elim (pin_mark_cases name o s d) [
  | inl u ↦ rw u.taken (c, omega arith, refl)
  | inr (m, u) ↦ rw u.taken (reserve-IsCompact 256 [] s.marks (pos m) c, omega arith, refl)
]

-- One policy of the first loop keeps the invariant.
pin-PinInv : (k : ℕ) (s : PinState) (p : Policy) → PinInv k s → PinInv (suc k) (pin s p)
unfolding pin
pin-PinInv k s p v =
    let r1 = pin_table p.name p.table s zero_routing in
    let r2 = pin_mark p.name p.mark r1.0 r1.1 in
    let (f1, plain, unpinned) = pin_table_frame p.name p.table s zero_routing in
    let (f2, number, pinned) = pin_mark_frame p.name p.mark r1.0 r1.1 in
    let fewer = waiting_list-Fewer r2.1 s.unpinned p in
    let todo = map (λ q. q.name) s.unpinned in
    let todo' = map (λ q. q.name) (waiting_list r2.1 s.unpinned p) in
    let listed = waiting_list-mem r2.1 s.unpinned p in
    let on_tables =
      pin_table_settles p.name s r2.1 todo todo' fewer p.table number pinned (λ e. listed (inl e))
        v.table_owners v.tables in
    let on_marks =
      pin_mark_settles p.name r1.0 r2.1 todo todo' fewer p.mark r1.1 unpinned refl refl
        (λ e. listed (inr e)) (rw (f1.owners, f1.marks) v.mark_owners)
        (rw (f1.routing, f1.marks) v.marks) in
    let bounds =
      pin_mark-IsCompact k p.name p.mark r1.0 r1.1 (rw f1.marks v.compact) (rw f1.marks v.few) in
    record {
      tables = rw (f2.unpinned, f1.unpinned, f2.routing, f1.routing, f2.tables) on_tables.0;
      marks = rw (f2.unpinned, f1.unpinned, f2.routing) on_marks.0;
      table_owners = rw (f2.owners, f2.tables) on_tables.1;
      mark_owners = on_marks.1;
      compact = bounds.0;
      few = bounds.1;
      started = omega (arith, bounds.2, ap (λ (a : Allocator). a.next_) f1.marks, v.started);
      waiting =
          rw (f2.unpinned, f1.unpinned)
            (omega (arith, waiting_list-length r2.1 s.unpinned p, v.waiting));
    }

pub pin_all-PinInv :
    (k : ℕ) (s : PinState) (ps : List Policy) → PinInv k s → PinInv (k + length ps) (pin_all s ps)
unfolding pin_all
pin_all-PinInv k s [] v = rw (add-zero k) v
pin_all-PinInv k s (p ∷ ps) v =
    let e : k + suc (length ps) ≡ suc k + length ps = omega arith in
    rw e (pin_all-PinInv (suc k) (pin s p) ps (pin-PinInv k s p v))

pub pin_start-PinInv : PinInv 0 pin_start
unfolding owner_of
pin_start-PinInv = record {
  tables = record {
    held = λ n r e l. cc (get-nil {V = PolicyRouting} n);
    allowed = λ n r e l. cc (get-nil {V = PolicyRouting} n);
    apart = λ n k r q ne e f l l'. cc (get-nil {V = PolicyRouting} n);
  };
  marks = record {
    held = λ n r e l. cc (get-nil {V = PolicyRouting} n);
    allowed = λ n r e l. cc (get-nil {V = PolicyRouting} n);
    apart = λ n k r q ne e f l l'. cc (get-nil {V = PolicyRouting} n);
  };
  table_owners = λ t e. refl;
  mark_owners = λ t e. refl;
  compact = omega arith;
  few = omega arith;
  started = omega arith;
  waiting = omega arith;
}
