-- ===== src/Config/Derive/Settled.antt =====
-- Which numbers of a routing are settled while the policies are gone through, and that a write to
-- the routing keeps the settled ones taken and apart.
use regied.Prelude.{
  ◌≡◌, ◌≢◌, sym, ap, ◌∙◌, ◌⊎◌, inl, inr, String, Bool, true, false, some, List, [], ◌∷◌, arith, ℤ,
  pos, mem_ℤ, =ℤ_iff, get, put, get-put_cases, mem,
}
use regied.Config.Derive.{PolicyRouting, reserved_tables}

-- What one of the two numbers of a routing is, whether it was pinned, and what it may not be.
pub record Column : Type 0 where
  pub number : PolicyRouting → ℤ
  pub pinned : PolicyRouting → Bool
  pub banned : List ℤ

-- The names of `todo` may still wait for their number.
module _ (c : Column) where
  abbrev pub IsLive : List String → String → PolicyRouting → Type 0
  IsLive todo n r = (c.pinned r ≡ true) ⊎ (mem n todo ≡ false)

  -- The numbers that are settled are taken, and no two are equal.
  pub record IsSettled (todo : List String) (m : List (String × PolicyRouting)) (taken : List ℤ)
      : Type 0 where
    pub held :
        (n : String) (r : PolicyRouting)
        → get n m ≡ some r
        → IsLive todo n r
        → mem_ℤ (c.number r) taken ≡ true
    pub allowed :
        (n : String) (r : PolicyRouting)
        → get n m ≡ some r
        → IsLive todo n r
        → mem_ℤ (c.number r) c.banned ≡ false
    pub apart :
        (n k : String) (r q : PolicyRouting)
        → n ≢ k
        → get n m ≡ some r
        → get k m ≡ some q
        → IsLive todo n r
        → IsLive todo k q
        → c.number r ≢ c.number q

  still-IsLive :
      (todo todo' : List String) (name : String)
      → ((k : String) → name ≢ k → mem k todo' ≡ false → mem k todo ≡ false)
      → (k : String) (q : PolicyRouting) → name ≢ k
      → IsLive todo' k q
      → IsLive todo k q
  still-IsLive todo todo' name fewer k q ne (inl p) = inl p
  still-IsLive todo todo' name fewer k q ne (inr p) = inr (fewer k ne p)

  -- A name's number becomes one that was free.
  pub put-fresh :
      (todo todo' : List String) (m : List (String × PolicyRouting)) (taken : List ℤ)
      (name : String) (d : PolicyRouting)
      → ((k : String) → name ≢ k → mem k todo' ≡ false → mem k todo ≡ false)
      → mem_ℤ (c.number d) taken ≡ false
      → mem_ℤ (c.number d) c.banned ≡ false
      → IsSettled todo m taken
      → IsSettled todo' (put name d m) (c.number d ∷ taken)
  put-fresh todo todo' m taken name d fewer free good s = record {
    held = λ n r e l. elim (get-put_cases name n d r m e) [
      | inl (same, is) ↦ ground (arith, =ℤ_iff (c.number d) (c.number r), ap c.number is)
      | inr (ne, was) ↦ ground (arith, s.held n r was (still-IsLive todo todo' name fewer n r ne l))
    ];
    allowed = λ n r e l. elim (get-put_cases name n d r m e) [
      | inl (same, is) ↦ cc (ap c.number is, good)
      | inr (ne, was) ↦ s.allowed n r was (still-IsLive todo todo' name fewer n r ne l)
    ];
    apart = λ n k r q ne e f l l'. elim (get-put_cases name n d r m e) [
      | inl (same, is) ↦ elim (get-put_cases name k d q m f) [
        | inl (same', is') ↦ absurd (ne (sym same ∙ same'))
        | inr (ne', was') ↦ λ p.
            cc (
              ap c.number is,
              s.held k q was' (still-IsLive todo todo' name fewer k q ne' l'),
              free,
            )
      ]
      | inr (ne', was) ↦ elim (get-put_cases name k d q m f) [
        | inl (same', is') ↦ λ p.
            cc
              (ap c.number is', s.held n r was (still-IsLive todo todo' name fewer n r ne' l), free)
        | inr (ne'', was') ↦
            s.apart n k r q ne was was' (still-IsLive todo todo' name fewer n r ne' l)
              (still-IsLive todo todo' name fewer k q ne'' l')
      ]
    ];
  }

  -- A name that has to wait is given a routing with no number of its own.
  pub put-waiting :
      (todo todo' : List String) (m : List (String × PolicyRouting)) (taken : List ℤ)
      (name : String) (d : PolicyRouting)
      → ((k : String) → name ≢ k → mem k todo' ≡ false → mem k todo ≡ false)
      → c.pinned d ≡ false
      → mem name todo' ≡ true
      → IsSettled todo m taken
      → IsSettled todo' (put name d m) taken
  put-waiting todo todo' m taken name d fewer waits listed s = record {
    held = λ n r e l. elim (get-put_cases name n d r m e) [
      | inl (same, is) ↦ absurd (not_live n r same is l)
      | inr (ne, was) ↦ s.held n r was (still-IsLive todo todo' name fewer n r ne l)
    ];
    allowed = λ n r e l. elim (get-put_cases name n d r m e) [
      | inl (same, is) ↦ absurd (not_live n r same is l)
      | inr (ne, was) ↦ s.allowed n r was (still-IsLive todo todo' name fewer n r ne l)
    ];
    apart = λ n k r q ne e f l l'. elim (get-put_cases name n d r m e) [
      | inl (same, is) ↦ absurd (not_live n r same is l)
      | inr (ne', was) ↦ elim (get-put_cases name k d q m f) [
        | inl (same', is') ↦ absurd (not_live k q same' is' l')
        | inr (ne'', was') ↦
            s.apart n k r q ne was was' (still-IsLive todo todo' name fewer n r ne' l)
              (still-IsLive todo todo' name fewer k q ne'' l')
      ]
    ];
  }
    where
      not_live : (n : String) (r : PolicyRouting) → name ≡ n → d ≡ r → IsLive todo' n r → ⊥
      not_live n r same is (inl p) = cc (waits, ap c.pinned is)
      not_live n r same is (inr p) = cc (listed, p, same)

  -- A name that had its number keeps it.
  pub put-kept :
      (todo todo' : List String) (m : List (String × PolicyRouting)) (taken : List ℤ)
      (name : String) (d d0 : PolicyRouting)
      → ((k : String) → name ≢ k → mem k todo' ≡ false → mem k todo ≡ false)
      → get name m ≡ some d0
      → c.pinned d0 ≡ true
      → c.number d ≡ c.number d0
      → IsSettled todo m taken
      → IsSettled todo' (put name d m) taken
  put-kept todo todo' m taken name d d0 fewer found pin same_number s = record {
    held = λ n r e l. elim (get-put_cases name n d r m e) [
      | inl (same, is) ↦ cc (s.held name d0 found (inl pin), same_number, ap c.number is)
      | inr (ne, was) ↦ s.held n r was (still-IsLive todo todo' name fewer n r ne l)
    ];
    allowed = λ n r e l. elim (get-put_cases name n d r m e) [
      | inl (same, is) ↦ cc (s.allowed name d0 found (inl pin), same_number, ap c.number is)
      | inr (ne, was) ↦ s.allowed n r was (still-IsLive todo todo' name fewer n r ne l)
    ];
    apart = λ n k r q ne e f l l'. elim (get-put_cases name n d r m e) [
      | inl (same, is) ↦ elim (get-put_cases name k d q m f) [
        | inl (same', is') ↦ absurd (ne (sym same ∙ same'))
        | inr (ne', was') ↦ λ p.
            s.apart name k d0 q ne' found was' (inl pin)
              (still-IsLive todo todo' name fewer k q ne' l') (cc (same_number, ap c.number is, p))
      ]
      | inr (ne', was) ↦ elim (get-put_cases name k d q m f) [
        | inl (same', is') ↦ λ p.
            s.apart name n d0 r ne' found was (inl pin)
              (still-IsLive todo todo' name fewer n r ne' l) (cc (same_number, ap c.number is', p))
        | inr (ne'', was') ↦
            s.apart n k r q ne was was' (still-IsLive todo todo' name fewer n r ne' l)
              (still-IsLive todo todo' name fewer k q ne'' l')
      ]
    ];
  }

abbrev pub tables_column : Column
tables_column = record {
  number = λ r. r.table;
  pinned = λ r. r.table_pinned;
  banned = reserved_tables;
}

abbrev pub marks_column : Column
marks_column = record { number = λ r. pos r.mark; pinned = λ r. r.mark_pinned; banned = pos 0 ∷ [] }

-- Only which names wait matters, not their order.
pub IsSettled-relax :
    (c : Column) (todo todo' : List String) (m : List (String × PolicyRouting)) (taken : List ℤ)
    → ((k : String) → mem k todo' ≡ false → mem k todo ≡ false)
    → IsSettled c todo m taken
    → IsSettled c todo' m taken
IsSettled-relax c todo todo' m taken fewer s = record {
  held = λ n r e l. s.held n r e (live n r l);
  allowed = λ n r e l. s.allowed n r e (live n r l);
  apart = λ n k r q ne e f l l'. s.apart n k r q ne e f (live n r l) (live k q l');
}
  where
    live : (k : String) (q : PolicyRouting) → IsLive c todo' k q → IsLive c todo k q
    live k q (inl p) = inl p
    live k q (inr p) = inr (fewer k p)
