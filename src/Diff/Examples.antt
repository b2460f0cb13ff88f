-- ===== src/Diff/Examples.antt =====
-- Runs of the diff, and the theorems at an input.
use regied.Prelude.{true, ◌≤◌, String, ◌≡◌, refl, List, [], ◌∷◌}
use regied.Diff.{keep, removed, added, Edit, edit, line_edits, hunks_of}
use regied.Diff.Hunks.{AreInOrder, is_inside, hunks_of-AreInOrder, is_inside-hunks_of}
use regied.Diff.Sides.{old_side, new_side, line_edits_sides}
use regied.Diff.Optimal.{kept, line_edits_optimal}

abbrev before : List String
before = "a" ∷ "b" ∷ "c" ∷ []

abbrev after : List String
after = "a" ∷ "c" ∷ "d" ∷ []

diff_run :
    line_edits before after ≡ edit keep "a" ∷ edit removed "b" ∷ edit keep "c" ∷ edit added "d" ∷ []
unfolding line_edits
diff_run = refl

-- every line removed and every line added
abbrev whole : List Edit
whole =
    edit removed "a"
    ∷ edit removed "b"
    ∷ edit removed "c"
    ∷ edit added "a"
    ∷ edit added "c"
    ∷ edit added "d"
    ∷ []

line_edits_optimal_example : kept whole ≤ kept (line_edits before after)
unfolding old_side new_side
line_edits_optimal_example = line_edits_optimal whole before after refl refl

line_edits_sides_example :
    (old_side (line_edits before after) ≡ before) × (new_side (line_edits before after) ≡ after)
line_edits_sides_example = line_edits_sides before after

hunk_run :
    hunks_of (line_edits before after)
    ≡ record { from = 0; to = 4; old_start = 1; old_count = 3; new_start = 1; new_count = 3 } ∷ []
unfolding hunks_of line_edits
hunk_run = refl

hunks_of-AreInOrder_example : AreInOrder 0 4 (hunks_of (line_edits before after))
unfolding line_edits
hunks_of-AreInOrder_example = hunks_of-AreInOrder (line_edits before after)

is_inside-hunks_of_example : is_inside 3 (hunks_of (line_edits before after)) ≡ true
unfolding line_edits
is_inside-hunks_of_example =
    is_inside-hunks_of (line_edits before after) 3 (edit added "d") refl refl
