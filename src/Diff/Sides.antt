-- ===== src/Diff/Sides.antt =====
-- What `lineEdits` returns is an edit script from the one text to the other.
use regied.Prelude.{ℕ, ◌+◌, String, ◌≡◌, refl, List, [], ◌∷◌, map, arith, eq_iff}
use regied.Diff.{removed, added, Edit, edit, walk, line_edits}

-- the lines that a reader of the old text sees in a script
unfoldable pub old_side : List Edit → List String
old_side [] = []
old_side (e ∷ es) = elim e.op [ added ↦ old_side es | _ ↦ e.text ∷ old_side es ]

unfoldable pub new_side : List Edit → List String
new_side [] = []
new_side (e ∷ es) = elim e.op [ removed ↦ new_side es | _ ↦ e.text ∷ new_side es ]

all_added :
    (ys : List String)
    → (old_side (map (edit added) ys) ≡ []) × (new_side (map (edit added) ys) ≡ ys)
unfolding old_side new_side
all_added [] = (refl, refl)
all_added (y ∷ ys) = ground (arith, all_added ys)

all_removed :
    (ys : List String)
    → (old_side (map (edit removed) ys) ≡ ys) × (new_side (map (edit removed) ys) ≡ [])
unfolding old_side new_side
all_removed [] = (refl, refl)
all_removed (y ∷ ys) = ground (arith, all_removed ys)

walk_sides :
    (lengths : List (List ℕ)) (i j : ℕ) (old new : List String)
    → (old_side (walk lengths i j old new) ≡ old) × (new_side (walk lengths i j old new) ≡ new)
unfolding old_side new_side walk
walk_sides lengths i j [] new = all_added new
walk_sides lengths i j (x ∷ xs) [] = all_removed (x ∷ xs)
walk_sides lengths i j (x ∷ xs) (y ∷ ys) = ground (
  arith,
  eq_iff x y,
  walk_sides lengths (i + 1) (j + 1) xs ys,
  walk_sides lengths (i + 1) j xs (y ∷ ys),
  walk_sides lengths i (j + 1) (x ∷ xs) ys,
)

-- The edits that `lineEdits` returns hold the old text and the new one, whole and in order: what is
-- not added reads as the old lines, and what is not removed reads as the new lines.
pub line_edits_sides :
    (old new : List String)
    → (old_side (line_edits old new) ≡ old) × (new_side (line_edits old new) ≡ new)
unfolding line_edits
line_edits_sides old new = walk_sides _ 0 0 old new
