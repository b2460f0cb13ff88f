-- ===== src/Diff.antt =====
-- internal/apply/diff.go: the difference between two texts as `diff -u` prints it. The tests on
-- the operation byte are tests on a data type with its three values.
pub mod Sides
pub mod Optimal
pub mod HunkEnd
pub mod Hunks
mod Examples
use regied.Prelude.{
  ℕ, zero, suc, ◌+◌, ◌-◌, ◌*◌, ◌<◌, max, min, String, Bool, true, false, not, ◌&&◌, List, [], ◌∷◌,
  map, length, get_or, take, drop, leb, ltb, ◌=ˢ◌, if◌then◌else◌,
}

-- the byte ' ', '-' or '+'
pub data Op : Type 0 where
  keep removed added : Op

pub record Edit : Type 0 where
  pub op : Op
  pub text : String

abbrev pub edit : Op → String → Edit
edit op text = record { op = op; text = text }

-- lengths[i][j], 0 outside the table
abbrev pub at : List (List ℕ) → ℕ → ℕ → ℕ
at lengths i j = get_or (get_or lengths i []) j 0

-- lengths[i] for the line `x` at i; `below` is lengths[i+1] from the column of `ys` on
row : String → List String → List ℕ → List ℕ
row x [] below = 0 ∷ []
row x (y ∷ ys) below =
    let rest = row x ys (drop 1 below) in
    (if x =ˢ y then get_or below 1 0 + 1 else max (get_or below 0 0) (get_or rest 0 0)) ∷ rest

-- lengths[len(old)], which is all zero
zeros : List String → List ℕ
zeros [] = 0 ∷ []
zeros (y ∷ ys) = 0 ∷ zeros ys

table : List String → List String → List (List ℕ)
table [] new = zeros new ∷ []
table (x ∷ xs) new = let rest = table xs new in row x new (get_or rest 0 []) ∷ rest

-- the loops over i and j; `old` and `new` are what is left from there
walk : List (List ℕ) → ℕ → ℕ → List String → List String → List Edit
walk lengths i j [] new = map (edit added) new
walk lengths i j (x ∷ xs) [] = map (edit removed) (x ∷ xs)
walk lengths i j (x ∷ xs) (y ∷ ys) =
    let both = walk lengths (i + 1) (j + 1) xs ys in
    let down = walk lengths (i + 1) j xs (y ∷ ys) in
    let right = walk lengths i (j + 1) (x ∷ xs) ys in
    if x =ˢ y
    then edit keep x ∷ both
    else if leb (at lengths i (j + 1)) (at lengths (i + 1) j)
    then edit removed x ∷ down
    else edit added y ∷ right

unfoldable pub line_edits : List String → List String → List Edit
unfolding walk table row zeros
line_edits old new = walk (table old new) 0 0 old new

abbrev pub context_lines : ℕ
context_lines = 3

pub record Hunk : Type 0 where
  pub from : ℕ
  pub to : ℕ
  pub old_start : ℕ
  pub old_count : ℕ
  pub new_start : ℕ
  pub new_count : ℕ

abbrev pub op_eq : Op → Op → Bool
op_eq keep keep = true
op_eq removed removed = true
op_eq added added = true
op_eq _ _ = false

unfoldable pub count_op : List Edit → Op → ℕ
count_op [] exclude = 0
count_op (e ∷ es) exclude = let n = count_op es exclude in if op_eq e.op exclude then n else n + 1

-- oldAt and newAt: the line that each edit begins at
starts : ℕ → Op → List Edit → List ℕ
starts line exclude [] = []
starts line exclude (e ∷ es) =
    line ∷ starts (if op_eq e.op exclude then line else line + 1) exclude es

-- the `for` that moves `next` over the edits that keep a line: how many there are
pub kept_run : List Edit → ℕ
kept_run [] = 0
kept_run (e ∷ es) = let n = kept_run es in if op_eq e.op keep then n + 1 else 0

-- the `for to < len(edits)` loop; `rest` is edits[to:], and the fuel is at least its length
pub hunk_end : ℕ → ℕ → ℕ → List Edit → ℕ
hunk_end zero len to rest = to
hunk_end (suc fuel) len to [] = to
hunk_end (suc fuel) len to (e ∷ es) =
    let run = kept_run (e ∷ es) in
    let further = hunk_end fuel len (to + 1) es in
    let jumped = hunk_end fuel len (to + run) (drop run (e ∷ es)) in
    if not (op_eq e.op keep)
    then further
    else if ltb (to + run) len && leb run (2 * context_lines)
    then jumped
    else min len (to + context_lines)

slice : List Edit → ℕ → ℕ → List Edit
slice edits from to = take (to - from) (drop from edits)

hunk_at : List Edit → ℕ → ℕ → Hunk
unfolding slice count_op starts
hunk_at edits from to = record {
  from = from;
  to = to;
  old_start = get_or (starts 1 added edits) from 0;
  old_count = count_op (slice edits from to) added;
  new_start = get_or (starts 1 removed edits) from 0;
  new_count = count_op (slice edits from to) removed;
}

-- the loop over i; `rest` is edits[i:], and the fuel is at least its length
hunks_from : ℕ → List Edit → ℕ → List Edit → List Hunk
hunks_from zero edits i rest = []
hunks_from (suc fuel) edits i [] = []
hunks_from (suc fuel) edits i (e ∷ es) =
    let to = hunk_end (suc (length es)) (length edits) i (e ∷ es) in
    let later = hunks_from fuel edits to (drop (to - i) (e ∷ es)) in
    let onward = hunks_from fuel edits (i + 1) es in
    if op_eq e.op keep then onward else hunk_at edits (i - context_lines) to ∷ later

unfoldable pub hunks_of : List Edit → List Hunk
unfolding hunks_from hunk_at hunk_end kept_run
hunks_of edits = hunks_from (length edits) edits 0 edits
