-- ===== src/Diff/Optimal.antt =====
-- The edits keep as many lines as any edit script between the two texts can.
use regied.Prelude.{
  ℕ, zero, suc, ◌+◌, ◌≤◌, max, String, ◌≡◌, refl, ◌∙◌, List, [], ◌∷◌, map, get_or, drop, arith,
  eq_iff, ◌=ˢ◌, if◌then◌else◌,
}
use regied.Diff.{keep, removed, added, Edit, edit, at, row, zeros, table, walk, line_edits}
use regied.Diff.Sides.{old_side, new_side}

-- the length of a longest common subsequence of two lists of lines
lcs : List String → List String → ℕ
lcs [] ys = 0
lcs (x ∷ xs) [] = 0
lcs (x ∷ xs) (y ∷ ys) =
    let both = lcs xs ys in
    let down = lcs xs (y ∷ ys) in
    let right = lcs (x ∷ xs) ys in if x =ˢ y then both + 1 else max down right

lcs-nil : (xs : List String) → lcs xs [] ≡ 0
unfolding lcs
lcs-nil [] = refl
lcs-nil (x ∷ xs) = refl

lcs_comm : (xs ys : List String) → lcs xs ys ≡ lcs ys xs
unfolding lcs
lcs_comm [] [] = refl
lcs_comm [] (y ∷ ys) = refl
lcs_comm (x ∷ xs) [] = refl
lcs_comm (x ∷ xs) (y ∷ ys) =
    ground
      (arith, eq_iff x y, eq_iff y x, lcs_comm xs ys, lcs_comm xs (y ∷ ys), lcs_comm (x ∷ xs) ys)

-- One more line on the left is no loss, and one more on the right is a gain of one at most.
lcs_bounds :
    (xs ys : List String)
    → ((x : String) → lcs xs ys ≤ lcs (x ∷ xs) ys)
      × ((y : String) → lcs xs (y ∷ ys) ≤ lcs xs ys + 1)
unfolding lcs
lcs_bounds [] [] = (λ x. omega arith, λ y. omega arith)
lcs_bounds [] (y ∷ ys) = (λ x. omega arith, λ z. omega arith)
lcs_bounds (x ∷ xs) [] = (λ z. omega arith, λ y. ground (arith, lcs-nil xs, (lcs_bounds xs []).1 y))
lcs_bounds (x ∷ xs) (y ∷ ys) = (
  λ z. ground (arith, (lcs_bounds (x ∷ xs) ys).1 y),
  λ z. ground (arith, (lcs_bounds xs (y ∷ ys)).0 x, (lcs_bounds xs (y ∷ ys)).1 z),
)

-- how many lines a script keeps
pub kept : List Edit → ℕ
kept [] = 0
kept (e ∷ es) = let n = kept es in elim e.op [ keep ↦ suc n | _ ↦ n ]

-- No script keeps more lines than its two sides have in common.
kept-le-lcs : (es : List Edit) → kept es ≤ lcs (old_side es) (new_side es)
unfolding kept old_side new_side lcs
kept-le-lcs [] = omega arith
kept-le-lcs (e ∷ es) = ground (
  arith,
  kept-le-lcs es,
  eq_iff e.text e.text,
  (lcs_bounds (old_side es) (new_side es)).0 e.text,
  (lcs_bounds (new_side es) (old_side es)).0 e.text,
  lcs_comm (old_side es) (new_side es),
  lcs_comm (old_side es) (e.text ∷ new_side es),
)

get_or-drop_one : (bs : List ℕ) (j : ℕ) → get_or (drop 1 bs) j 0 ≡ get_or bs (suc j) 0
get_or-drop_one [] j = refl
get_or-drop_one (b ∷ bs) j = refl

-- A row of the table holds what the recursion computes, given that the row below it does.
row_lem :
    (x : String) (xs ys : List String) (below : List ℕ)
    → ((j : ℕ) → get_or below j 0 ≡ lcs xs (drop j ys))
    → (j : ℕ) → get_or (row x ys below) j 0 ≡ lcs (x ∷ xs) (drop j ys)
unfolding row lcs
row_lem x xs [] below h zero = refl
row_lem x xs [] below h (suc j) = refl
row_lem x xs (y ∷ ys) below h zero =
    ground
      (arith, h 0, h 1, row_lem x xs ys (drop 1 below) (λ j. get_or-drop_one below j ∙ h (suc j)) 0)
row_lem x xs (y ∷ ys) below h (suc j) =
    row_lem x xs ys (drop 1 below) (λ k. get_or-drop_one below k ∙ h (suc k)) j

zeros_lem : (ys : List String) (j : ℕ) → get_or (zeros ys) j 0 ≡ 0
unfolding zeros
zeros_lem [] zero = refl
zeros_lem [] (suc j) = refl
zeros_lem (y ∷ ys) zero = refl
zeros_lem (y ∷ ys) (suc j) = zeros_lem ys j

-- Every entry of the table is the length of a longest common subsequence of what is left there.
table_lem :
    (old new : List String) (i j : ℕ) → at (table old new) i j ≡ lcs (drop i old) (drop j new)
unfolding table lcs
table_lem [] new zero j = zeros_lem new j
table_lem [] new (suc i) j = refl
table_lem (x ∷ xs) new zero j = row_lem x xs new (get_or (table xs new) 0 []) (table_lem xs new 0) j
table_lem (x ∷ xs) new (suc i) j = table_lem xs new i j

kept_all_removed : (xs : List String) → kept (map (edit removed) xs) ≡ 0
unfolding kept
kept_all_removed [] = refl
kept_all_removed (x ∷ xs) = kept_all_removed xs

kept_all_added : (xs : List String) → kept (map (edit added) xs) ≡ 0
unfolding kept
kept_all_added [] = refl
kept_all_added (x ∷ xs) = kept_all_added xs

-- The table is right from (i, j) on for what is left of the two texts there.
abbrev IsRight : List (List ℕ) → ℕ → ℕ → List String → List String → Type 0
IsRight lengths i j old new =
    (i' j' a b : ℕ) → i' ≡ i + a → j' ≡ j + b → at lengths i' j' ≡ lcs (drop a old) (drop b new)

-- With such a table the walk keeps a longest common subsequence.
kept-walk :
    (lengths : List (List ℕ)) (i j : ℕ) (old new : List String)
    → IsRight lengths i j old new
    → kept (walk lengths i j old new) ≡ lcs old new
unfolding kept walk lcs
kept-walk lengths i j [] new h = kept_all_added new
kept-walk lengths i j (x ∷ xs) [] h = kept_all_removed (x ∷ xs)
kept-walk lengths i j (x ∷ xs) (y ∷ ys) h = ground (
  arith,
  kept-walk lengths (i + 1) (j + 1) xs ys
      (λ i' j' a b p q. h i' j' (suc a) (suc b) (omega arith) (omega arith)),
  kept-walk lengths (i + 1) j xs (y ∷ ys)
      (λ i' j' a b p q. h i' j' (suc a) b (omega arith) (omega arith)),
  kept-walk lengths i (j + 1) (x ∷ xs) ys
      (λ i' j' a b p q. h i' j' a (suc b) (omega arith) (omega arith)),
  h (i + 1) j 1 0 (omega arith) (omega arith),
  h i (j + 1) 0 1 (omega arith) (omega arith),
)

table-IsRight : (old new : List String) → IsRight (table old new) 0 0 old new
table-IsRight old new i' j' a b p q =
    let e : i' ≡ a = omega arith in
    let f : j' ≡ b = omega arith in rw (e, f) (table_lem old new a b)

-- No edit script from the old text to the new one keeps more lines than `lineEdits` does.
pub line_edits_optimal :
    (es : List Edit) (old new : List String)
    → old_side es ≡ old
    → new_side es ≡ new
    → kept es ≤ kept (line_edits old new)
unfolding line_edits
line_edits_optimal es old new p q =
    rw (kept-walk (table old new) 0 0 old new (table-IsRight old new), ← p, ← q) (kept-le-lcs es)
