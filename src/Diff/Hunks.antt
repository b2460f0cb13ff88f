-- ===== src/Diff/Hunks.antt =====
-- The hunks of a diff: where they lie, and what they hold.
use mathlib.Core.Path.{subst}
use regied.Prelude.{
  ℕ, zero, suc, ◌+◌, ◌-◌, ◌≤◌, ◌<◌, ◌≡◌, refl, ◌∙◌, ap, ◌⊎◌, inl, inr, Bool, true, false, ◌&&◌,
  some, List, [], ◌∷◌, length, get_elem?, drop, arith, ltb, leb, if◌then◌else◌, if-cases,
  Bool-cases,
}
use regied.Diff.{
  Edit, keep, op_eq, context_lines, kept_run, hunk_end, Hunk, hunk_at, hunks_from, hunks_of,
}
use regied.Diff.HunkEnd.{length-drop, suc_add, IsCalm, hunk_end-Ends, hunk_end-past}

-- The hunks lie one after the other between `lo` and `len`, and none is empty.
abbrev pub AreInOrder : ℕ → ℕ → List Hunk → Type 0
AreInOrder lo len [] = Unit
AreInOrder lo len (h ∷ hs) = (lo ≤ h.from) × (h.from < h.to) × (h.to ≤ len) × AreInOrder h.to len hs

abbrev pub is_inside : ℕ → List Hunk → Bool
is_inside j [] = false
is_inside j (h ∷ hs) =
    let rest = is_inside j hs in if leb h.from j && ltb j h.to then true else rest

-- Every edit of `rest` that changes a line is inside a hunk; the first one is number `i`.
abbrev Covers : ℕ → List Edit → List Hunk → Type 0
Covers i rest hs =
    (j : ℕ) (e : Edit)
    → get_elem? rest j ≡ some e
    → op_eq e.op keep ≡ false
    → is_inside (i + j) hs ≡ true

record Hunked (lo len i : ℕ) (rest : List Edit) (hs : List Hunk) : Type 0 where
  order : AreInOrder lo len hs
  covers : Covers i rest hs

-- Whatever changes a line lies at least the context's lines past `lo`, except at the beginning.
abbrev IsClear : ℕ → ℕ → List Edit → Type 0
IsClear lo i rest = (kept_run rest ≡ length rest) ⊎ (lo ≤ i + kept_run rest - context_lines)

get_elem?-drop : (d j : ℕ) (es : List Edit) → get_elem? (drop d es) j ≡ get_elem? es (d + j)
get_elem?-drop zero j es = ap (λ n. get_elem? es n) (omega arith)
get_elem?-drop (suc d) j [] = refl
get_elem?-drop (suc d) j (e ∷ es) =
    get_elem?-drop d j es ∙ ap (λ n. get_elem? (e ∷ es) n) (suc_add d j)

shift : (i j : ℕ) → i + 1 + j ≡ i + suc j
shift i j = omega arith

Hunked-kept :
    (lo len i : ℕ) (e : Edit) (es : List Edit) (hs : List Hunk)
    → op_eq e.op keep ≡ true
    → Hunked lo len (i + 1) es hs
    → Hunked lo len i (e ∷ es) hs
Hunked-kept lo len i e es hs k h = record { order = h.order; covers = covers }
  where
    covers : Covers i (e ∷ es) hs
    covers zero u g c = cc (g, k, c)
    covers (suc j) u g c = subst (λ n. is_inside n hs ≡ true) (shift i j) (h.covers j u g c)

is_inside_later :
    (j : ℕ) (h : Hunk) (hs : List Hunk) → is_inside j hs ≡ true → is_inside j (h ∷ hs) ≡ true
is_inside_later j h hs e = ground arith

Hunked-changed :
    (lo len i : ℕ) (rest : List Edit) (h : Hunk) (later : List Hunk)
    → lo ≤ h.from
    → h.from ≤ i
    → i < h.to
    → h.to ≤ len
    → Hunked h.to len h.to (drop (h.to - i) rest) later
    → Hunked lo len i rest (h ∷ later)
Hunked-changed lo len i rest h later low before after inside k = record {
  order = (low, omega (arith, before, after), inside, k.order);
  covers = covers;
}
  where
    covers : Covers i rest (h ∷ later)
    covers j u g c = elim (Bool-cases (ltb (i + j) h.to)) [
      | inl here ↦ ground (arith, here, before)
      | inr past ↦
          let d = h.to - i in
          let far : d ≤ j = ground (arith, past, after) in
          let found =
            k.covers (j - d) u
              (get_elem?-drop d (j - d) rest ∙ (ap (λ n. get_elem? rest n) (rejoin d j far) ∙ g))
              c in
          is_inside_later (i + j) h later
            (subst (λ n. is_inside n later ≡ true) (place i j h.to far after) found)
    ]
      where
        rejoin : (d j : ℕ) → d ≤ j → d + (j - d) ≡ j
        rejoin d j h = omega (arith, h)

        place : (i j t : ℕ) → t - i ≤ j → i < t → t + (j - (t - i)) ≡ i + j
        place i j t h k = omega (arith, h, k)

kept_run-changed : (e : Edit) (es : List Edit) → op_eq e.op keep ≡ false → kept_run (e ∷ es) ≡ 0
unfolding kept_run
kept_run-changed e es c = rw c refl

IsClear-next :
    (lo i : ℕ) (e : Edit) (es : List Edit)
    → op_eq e.op keep ≡ true
    → IsClear lo i (e ∷ es)
    → IsClear lo (i + 1) es
unfolding kept_run
IsClear-next lo i e es k h = ground (arith, k, h)

IsClear-from :
    (lo i : ℕ) (e : Edit) (es : List Edit)
    → op_eq e.op keep ≡ false
    → IsClear lo i (e ∷ es)
    → lo ≤ i - context_lines
IsClear-from lo i e es c h = let z = kept_run-changed e es c in ground (arith, z, h)

IsClear-after : (r : ℕ) (es : List Edit) → IsCalm es → IsClear r r es
IsClear-after r es (inl all) = inl all
IsClear-after r es (inr calm) = inr (omega (arith, calm))

hunks_from-Hunked :
    (fuel : ℕ) (edits : List Edit) (lo i : ℕ) (rest : List Edit)
    → length rest ≤ fuel
    → length edits ≡ i + length rest
    → IsClear lo i rest
    → Hunked lo (length edits) i rest (hunks_from fuel edits i rest)
unfolding hunks_from hunk_at
hunks_from-Hunked zero edits lo i [] f l c = record { order = tt; covers = λ j u g d. cc }
hunks_from-Hunked zero edits lo i (e ∷ es) f l c = absurd (omega (arith, f))
hunks_from-Hunked (suc fuel) edits lo i [] f l c = record { order = tt; covers = λ j u g d. cc }
hunks_from-Hunked (suc fuel) edits lo i (e ∷ es) f l c =
    let to = hunk_end (suc (length es)) (length edits) i (e ∷ es) in
    if-cases (Hunked lo (length edits) i (e ∷ es)) (op_eq e.op keep)
      (hunks_from fuel edits (i + 1) es)
      (hunk_at edits (i - context_lines) to ∷ hunks_from fuel edits to (drop (to - i) (e ∷ es)))
      (λ kept. Hunked-kept lo (length edits) i e es _ kept (
        hunks_from-Hunked fuel edits lo (i + 1) es (omega (arith, f)) (omega (arith, l))
          (IsClear-next lo i e es kept c)))
      (λ changed.
        let ends = hunk_end-Ends (suc (length es)) (length edits) i (e ∷ es) (omega arith) l in
        let past = hunk_end-past (length es) (length edits) i e es changed (omega arith) l in
        let shorter = length-drop (to - i) (e ∷ es) in
        Hunked-changed lo (length edits) i (e ∷ es) (hunk_at edits (i - context_lines) to) _
          (IsClear-from lo i e es changed c) (omega arith) past ends.inside
          (hunks_from-Hunked fuel edits to to (drop (to - i) (e ∷ es))
            (omega (arith, shorter, past, f)) (omega (arith, shorter, past, ends.inside, l))
            (IsClear-after to _ ends.calm)))

zero_add : (n : ℕ) → 0 + n ≡ n
zero_add n = omega arith

-- The hunks of a diff lie in the edits one after the other, without overlapping, and none is empty.
pub hunks_of-AreInOrder : (edits : List Edit) → AreInOrder 0 (length edits) (hunks_of edits)
unfolding hunks_of
hunks_of-AreInOrder edits =
    (hunks_from-Hunked (length edits) edits 0 0 edits (omega arith) (omega arith)
      (inr (omega arith))).order

-- Every edit that adds or removes a line is inside one of the hunks: the printed diff leaves no
-- change out.
pub is_inside-hunks_of :
    (edits : List Edit) (j : ℕ) (e : Edit)
    → get_elem? edits j ≡ some e
    → op_eq e.op keep ≡ false
    → is_inside j (hunks_of edits) ≡ true
unfolding hunks_of
is_inside-hunks_of edits j e g c =
    subst (λ n. is_inside n (hunks_of edits) ≡ true) (zero_add j)
      ((hunks_from-Hunked (length edits) edits 0 0 edits (omega arith) (omega arith)
          (inr (omega arith))).covers
        j e g c)
