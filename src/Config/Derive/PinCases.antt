-- ===== src/Config/Derive/PinCases.antt =====
-- The cases of the two pins of deriveRouting's first loop: what each takes, and what it leaves alone.
use regied.Prelude.{
  ℕ, zero, suc, ◌≡◌, refl, ◌⊎◌, inl, inr, String, true, false, Option, none, some, List, [], ◌∷◌,
  arith, ℤ, pos, mem_ℤ, mem, Bool-cases, Option-cases,
}
use regied.Config.Derive.{
  PolicyRouting, PinState, pin_table, pin_mark, owner_of, reserve, reserved_tables,
}

-- A number with no owner is not taken.
abbrev pub OwnersComplete : List (ℤ × String) → List ℤ → Type 0
OwnersComplete owners taken = (t : ℤ) → owner_of t owners ≡ none → mem_ℤ t taken ≡ false

pub owners_cons :
    (k : ℤ) (name : String) (owners : List (ℤ × String)) (taken : List ℤ)
    → OwnersComplete owners taken
    → OwnersComplete ((k, name) ∷ owners) (k ∷ taken)
unfolding owner_of
owners_cons k name owners taken h t e = ground (arith, h t)

abbrev pub Fewer : List String → List String → Type 0
Fewer todo todo' = (k : String) → mem k todo' ≡ false → mem k todo ≡ false

-- The pin of a table took a number that had no owner.
pub record PinnedTable (name : String) (s : PinState) (d : PolicyRouting)
    (r : PinState × PolicyRouting) (t : ℤ) : Type 0 where
  pub alone : owner_of t s.table_owner ≡ none
  pub ours : mem_ℤ t reserved_tables ≡ false
  pub taken : r.0.tables ≡ reserve s.tables t
  pub owners : r.0.table_owner ≡ (t, name) ∷ s.table_owner
  pub routed : r.1 ≡ record d { table = t; table_pinned = true }

-- The pin of a table took nothing.
pub record UnpinnedTable (s : PinState) (d : PolicyRouting) (r : PinState × PolicyRouting)
    : Type 0 where
  pub taken : r.0.tables ≡ s.tables
  pub owners : r.0.table_owner ≡ s.table_owner
  pub routed : r.1 ≡ d

pub pin_table_cases :
    (name : String) (o : Option ℤ) (s : PinState) (d : PolicyRouting)
    → UnpinnedTable s d (pin_table name o s d)
      ⊎ ((t : ℤ) × PinnedTable name s d (pin_table name o s d) t)
unfolding pin_table
pin_table_cases name none s d = inl (record { taken = refl; owners = refl; routed = refl })
pin_table_cases name (some t) s d = elim (Bool-cases (mem_ℤ t reserved_tables)) [
  | inl held ↦ inl (ground arith)
  | inr free ↦ elim (Option-cases (owner_of t s.table_owner)) [
    | inl alone ↦ inr (t, ground arith)
    | inr (owner, e) ↦ inl (ground arith)
  ]
]

pub record PinnedMark (name : String) (s : PinState) (d : PolicyRouting)
    (r : PinState × PolicyRouting) (m : ℕ) : Type 0 where
  pub alone : owner_of (pos m) s.mark_owner ≡ none
  pub ours : mem_ℤ (pos m) (pos 0 ∷ []) ≡ false
  pub taken : r.0.marks ≡ reserve s.marks (pos m)
  pub owners : r.0.mark_owner ≡ (pos m, name) ∷ s.mark_owner
  pub routed : r.1 ≡ record d { mark = m; mark_pinned = true }

pub record UnpinnedMark (s : PinState) (d : PolicyRouting) (r : PinState × PolicyRouting)
    : Type 0 where
  pub taken : r.0.marks ≡ s.marks
  pub owners : r.0.mark_owner ≡ s.mark_owner
  pub routed : r.1 ≡ d

pub pin_mark_cases :
    (name : String) (o : Option ℕ) (s : PinState) (d : PolicyRouting)
    → UnpinnedMark s d (pin_mark name o s d)
      ⊎ ((m : ℕ) × PinnedMark name s d (pin_mark name o s d) m)
unfolding pin_mark
pin_mark_cases name none s d = inl (record { taken = refl; owners = refl; routed = refl })
pin_mark_cases name (some zero) s d = inl (record { taken = refl; owners = refl; routed = refl })
pin_mark_cases name (some (suc m)) s d = elim (Option-cases (owner_of (pos (suc m)) s.mark_owner)) [
  | inl alone ↦ inr (suc m, ground arith)
  | inr (owner, e) ↦ inl (ground arith)
]

-- What the pin of a table leaves alone, and what the pin of a mark does.
pub record SameTables (r s : PinState) : Type 0 where
  pub tables : r.tables ≡ s.tables
  pub owners : r.table_owner ≡ s.table_owner
  pub routing : r.routing ≡ s.routing
  pub unpinned : r.unpinned ≡ s.unpinned

pub record SameMarks (r s : PinState) : Type 0 where
  pub marks : r.marks ≡ s.marks
  pub owners : r.mark_owner ≡ s.mark_owner
  pub routing : r.routing ≡ s.routing
  pub unpinned : r.unpinned ≡ s.unpinned

pub pin_table_frame :
    (name : String) (o : Option ℤ) (s : PinState) (d : PolicyRouting)
    → SameMarks (pin_table name o s d).0 s
      × ((pin_table name o s d).1.mark ≡ d.mark)
      × ((pin_table name o s d).1.mark_pinned ≡ d.mark_pinned)
unfolding pin_table
pin_table_frame name none s d = ground arith
pin_table_frame name (some t) s d = ground arith

pub pin_mark_frame :
    (name : String) (o : Option ℕ) (s : PinState) (d : PolicyRouting)
    → SameTables (pin_mark name o s d).0 s
      × ((pin_mark name o s d).1.table ≡ d.table)
      × ((pin_mark name o s d).1.table_pinned ≡ d.table_pinned)
unfolding pin_mark
pin_mark_frame name none s d = ground arith
pin_mark_frame name (some zero) s d = ground arith
pin_mark_frame name (some (suc m)) s d = ground arith
