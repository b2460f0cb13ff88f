-- ===== src/Config/Returns/Apart.antt =====
-- The numbers of the return routing are nobody else's.
use regied.Prelude.{
  ℕ, suc, ◌+◌, ◌≤◌, ◌≡◌, ◌≢◌, refl, sym, ◌∙◌, ap, inl, inr, String, Bool, true, false, not, Option,
  none, some, List, [], ◌∷◌, arith, ℤ, pos, mem_ℤ, get, length, length-append, length-sort, sort,
  All, Bool-cases, =ℤ_iff,
}
use regied.Config.Derive.{
  Allocator, next, reserved_tables, not_reserved, any_number, u32, Policy, PolicyRouting,
  derive_policies,
}
use regied.Config.Derive.Allocation.{IsCompact, next_fresh, next-IsCompact}
use mathlib.Core.Path.{subst}
use regied.Config.Derive.Rounds.{not_reserved-refuses, any_number-refuses}
use regied.Config.Derive.Distinct.{derive_policies-AllocInv}
use regied.Config.Returns.{
  Forward, ReturnKey, ForwardReturn, keys_of, add_key, asked_key, has_key, compare_keys, hand_out,
  derive_forward_returns, derive_routing,
}

-- Neither number is taken.
record IsFresh (tables marks : List ℤ) (x : ForwardReturn) : Type 0 where
  table : mem_ℤ (pos x.table) tables ≡ false
  mark : mem_ℤ (pos x.mark) marks ≡ false
  allowed : mem_ℤ (pos x.table) reserved_tables ≡ false

-- Neither number is the other's.
pub record IsApart (x y : ForwardReturn) : Type 0 where
  pub tables : x.table ≢ y.table
  pub marks : x.mark ≢ y.mark

-- Every two are apart.
abbrev pub AreApart : List ForwardReturn → Type 0
AreApart [] = Unit
AreApart (x ∷ xs) = All (IsApart x) xs × AreApart xs

not_taken :
    (a : ℤ) (b : ℤ) (xs : List ℤ) → mem_ℤ a (b ∷ xs) ≡ false → (b ≢ a) × (mem_ℤ a xs ≡ false)
not_taken a b xs h = ground (arith, =ℤ_iff b a)

pos_ne : (m n : ℕ) → pos m ≢ pos n → m ≢ n
pos_ne m n h e = h (ap pos e)

-- What is fresh after two more numbers are taken is fresh before, and apart from the two.
All-IsFresh :
    (tables marks : List ℤ) (x : ForwardReturn) (ys : List ForwardReturn)
    → All (IsFresh (pos x.table ∷ tables) (pos x.mark ∷ marks)) ys
    → All (IsFresh tables marks) ys × All (IsApart x) ys
All-IsFresh tables marks x [] h = (tt, tt)
All-IsFresh tables marks x (y ∷ ys) h =
    let t = not_taken (pos y.table) (pos x.table) tables h.0.table in
    let m = not_taken (pos y.mark) (pos x.mark) marks h.0.mark in
    let later = All-IsFresh tables marks x ys h.1 in
    (
      (record { table = t.1; mark = m.1; allowed = h.0.allowed }, later.0),
      (record { tables = pos_ne _ _ t.0; marks = pos_ne _ _ m.0 }, later.1),
    )

not-true : (b : Bool) → not b ≡ true → b ≡ false
not-true b h = ground arith

hand_out_separate :
    (ks : List ReturnKey) (tables marks : Allocator) (count : ℕ)
    → IsCompact 256 [] marks
    → length marks.taken ≤ count
    → count + length ks ≤ 3000000000
    → All (IsFresh tables.taken marks.taken) (hand_out ks tables marks)
      × AreApart (hand_out ks tables marks)
unfolding hand_out
hand_out_separate [] tables marks count c few small = (tt, tt)
hand_out_separate (k ∷ ks) tables marks count c few small =
    let (t, tables') = next not_reserved tables in
    let (n, marks') = next any_number marks in
    let f = next_fresh not_reserved reserved_tables tables not_reserved-refuses (omega arith) in
    let g = next_fresh any_number [] marks any_number-refuses (omega arith) in
    let d = next-IsCompact any_number 256 [] marks any_number-refuses c in
    let x : ForwardReturn = record {
      uplink = k.uplink;
      family = k.family;
      table = t;
      mark = u32 n;
    } in
    let e : u32 n ≡ n = omega (arith, d.1, few, small) in
    let longer : length marks'.taken ≤ suc count = omega (arith, few) in
    let ih = hand_out_separate ks tables' marks' (suc count) d.0 longer (omega (arith, small)) in
    let rest = hand_out ks tables' marks' in
    let taken : All (IsFresh (pos x.table ∷ tables.taken) (pos x.mark ∷ marks.taken)) rest =
      subst (λ l. All (IsFresh l (pos x.mark ∷ marks.taken)) rest) f.2
        (subst (λ l. All (IsFresh tables'.taken l) rest)
          (g.2 ∙ ap (λ m. pos m ∷ marks.taken) (sym e)) ih.0) in
    let all = All-IsFresh tables.taken marks.taken x rest taken in
    ((record { table = f.0; mark = rw e (g.0); allowed = not-true _ f.1 }, all.0), (all.1, ih.1))

length-add_key :
    (k : Option ReturnKey) (keys : List ReturnKey) → length (add_key k keys) ≤ suc (length keys)
unfolding add_key
length-add_key none keys = omega arith
length-add_key (some k) keys = elim (Bool-cases (has_key k keys)) [
  | inl old ↦ rw old (omega arith)
  | inr new ↦ rw new (omega (arith, length-append keys (k ∷ [])))
]

length-keys_of :
    (keys : List ReturnKey) (fs : List Forward) → length (keys_of keys fs) ≤ length keys + length fs
unfolding keys_of
length-keys_of keys [] = omega arith
length-keys_of keys (f ∷ fs) =
    omega (arith, length-keys_of (add_key (asked_key f) keys) fs, length-add_key (asked_key f) keys)

returns_separate :
    (policies : List Policy) (forwards : List Forward)
    → length policies ≤ 1000000000
    → length forwards ≤ 1000000000
    → let s = derive_policies policies in
      All (IsFresh s.tables.taken s.marks.taken) (derive_routing policies forwards).1
      × AreApart (derive_routing policies forwards).1
unfolding derive_routing derive_forward_returns
returns_separate policies forwards p f =
    let s = derive_policies policies in
    let w = derive_policies-AllocInv policies p in
    hand_out_separate (sort compare_keys (keys_of [] forwards)) s.tables s.marks 2000000000
      w.compact w.few
      (omega (arith, length-sort compare_keys (keys_of [] forwards), length-keys_of [] forwards, f))

-- No two uplinks that forwards are published on are given one return table, nor one return mark.
-- The declaration has at most a billion policies and a billion forwards.
pub returns_apart :
    (policies : List Policy) (forwards : List Forward)
    → length policies ≤ 1000000000
    → length forwards ≤ 1000000000
    → AreApart (derive_routing policies forwards).1
returns_apart policies forwards p f = (returns_separate policies forwards p f).1

-- Neither number is that of the policy.
pub record IsOther (r : PolicyRouting) (x : ForwardReturn) : Type 0 where
  pub table : r.table ≢ pos x.table
  pub mark : r.mark ≢ x.mark

apart_of_taken : (a b : ℤ) (xs : List ℤ) → mem_ℤ a xs ≡ true → mem_ℤ b xs ≡ false → a ≢ b
apart_of_taken a b xs h k e = cc (rw e at h)

All-IsOther :
    (r : PolicyRouting) (tables marks : List ℤ) (xs : List ForwardReturn)
    → mem_ℤ r.table tables ≡ true
    → mem_ℤ (pos r.mark) marks ≡ true
    → All (IsFresh tables marks) xs
    → All (IsOther r) xs
All-IsOther r tables marks [] t m h = tt
All-IsOther r tables marks (x ∷ xs) t m h = (
  record {
    table = apart_of_taken _ _ tables t h.0.table;
    mark = pos_ne _ _ (apart_of_taken _ _ marks m h.0.mark);
  },
  All-IsOther r tables marks xs t m h.1,
)

-- The return routing of an uplink shares neither its table nor its mark with any policy. The
-- declaration has at most a billion policies and a billion forwards.
pub returns-IsOther :
    (policies : List Policy) (forwards : List Forward) (n : String) (r : PolicyRouting)
    → length policies ≤ 1000000000
    → length forwards ≤ 1000000000
    → get n (derive_routing policies forwards).0 ≡ some r
    → All (IsOther r) (derive_routing policies forwards).1
unfolding derive_routing
returns-IsOther policies forwards n r p f e =
    let w = derive_policies-AllocInv policies p in
    All-IsOther r _ _ _ (w.tables.held n r e (inr refl)) (w.marks.held n r e (inr refl))
      (returns_separate policies forwards p f).0

All-allowed :
    (tables marks : List ℤ) (xs : List ForwardReturn)
    → All (IsFresh tables marks) xs
    → All (λ x. mem_ℤ (pos x.table) reserved_tables ≡ false) xs
All-allowed tables marks [] h = tt
All-allowed tables marks (x ∷ xs) h = (h.0.allowed, All-allowed tables marks xs h.1)

-- The return routing of an uplink has none of the tables that the kernel keeps for itself. The
-- declaration has at most a billion policies and a billion forwards.
pub returns_allowed :
    (policies : List Policy) (forwards : List Forward)
    → length policies ≤ 1000000000
    → length forwards ≤ 1000000000
    → All (λ x. mem_ℤ (pos x.table) reserved_tables ≡ false) (derive_routing policies forwards).1
returns_allowed policies forwards p f = All-allowed _ _ _ (returns_separate policies forwards p f).0
