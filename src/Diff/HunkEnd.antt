-- ===== src/Diff/HunkEnd.antt =====
-- Where a hunk ends: never inside the edits that change a line, nor close before one.
use mathlib.Core.Path.{subst}
use regied.Prelude.{
  ℕ, zero, suc, ◌+◌, ◌-◌, ◌*◌, ◌≤◌, ◌<◌, min, ◌≡◌, refl, sym, ◌∙◌, ap, ◌⊎◌, inl, inr, true, false,
  not, ◌&&◌, List, [], ◌∷◌, length, drop, arith, ltb, leb, if-cases, Bool-cases,
}
use regied.Diff.{Edit, keep, op_eq, context_lines, kept_run, hunk_end}

pub kept_run-le-length : (es : List Edit) → kept_run es ≤ length es
unfolding kept_run
kept_run-le-length [] = omega arith
kept_run-le-length (e ∷ es) = ground (arith, kept_run-le-length es)

kept_run-drop : (d : ℕ) (es : List Edit) → d ≤ kept_run es → kept_run (drop d es) ≡ kept_run es - d
unfolding kept_run
kept_run-drop zero es h = omega arith
kept_run-drop (suc d) [] h = omega (arith, h)
kept_run-drop (suc d) (e ∷ es) h = elim (Bool-cases (op_eq e.op keep)) [
  | inl k ↦
      let l : suc d ≤ kept_run es + 1 = rw k at h in
      rw k (omega (arith, kept_run-drop d es (omega (arith, l)), l))
  | inr c ↦ let l : suc d ≤ 0 = rw c at h in absurd (omega (arith, l))
]

pub length-drop : (d : ℕ) (es : List Edit) → length (drop d es) ≡ length es - d
length-drop zero es = omega arith
length-drop (suc d) [] = omega arith
length-drop (suc d) (e ∷ es) = omega (arith, length-drop d es)

pub suc_add : (b a : ℕ) → suc (b + a) ≡ suc b + a
suc_add b a = omega arith

drop-nil : (n : ℕ) → drop {A = Edit} n [] ≡ []
drop-nil zero = refl
drop-nil (suc n) = refl

drop-drop : (a b : ℕ) (es : List Edit) → drop a (drop b es) ≡ drop (b + a) es
drop-drop a zero es = ap (λ n. drop n es) (omega arith)
drop-drop a (suc b) [] = drop-nil a ∙ sym (drop-nil (suc b + a))
drop-drop a (suc b) (e ∷ es) = drop-drop a b es ∙ ap (λ n. drop n (e ∷ es)) (suc_add b a)

-- No edit changes a line from here to the end, or at least the context's lines are kept first.
abbrev pub IsCalm : List Edit → Type 0
IsCalm es = (kept_run es ≡ length es) ⊎ (context_lines ≤ kept_run es)

-- Where a hunk that is at `to` ends.
pub record Ends (len to : ℕ) (rest : List Edit) (r : ℕ) : Type 0 where
  pub reached : to ≤ r
  pub inside : r ≤ len
  pub calm : IsCalm (drop (r - to) rest)

Ends-now :
    (len to : ℕ) (e : Edit) (es : List Edit)
    → len ≡ to + length (e ∷ es)
    → (ltb (to + kept_run (e ∷ es)) len && leb (kept_run (e ∷ es)) (2 * context_lines)) ≡ false
    → Ends len to (e ∷ es) (min len (to + context_lines))
Ends-now len to e es l stop = record {
  reached = omega (arith, l);
  inside = omega arith;
  calm = by_run (Bool-cases (ltb (to + run) len));
}
  where
    run : ℕ
    run = kept_run (e ∷ es)

    d : ℕ
    d = min len (to + context_lines) - to

    by_run : ((ltb (to + run) len ≡ true) ⊎ (ltb (to + run) len ≡ false)) → IsCalm (drop d (e ∷ es))
    by_run (inl more) =
        let far : 6 < run = ground (arith, stop, more) in
        let le = kept_run-le-length (e ∷ es) in
        inr (omega (arith, kept_run-drop d (e ∷ es) (omega (arith, far, le, l)), far, le, l))
    by_run (inr all) =
        let le = kept_run-le-length (e ∷ es) in
        let whole : run ≡ length (e ∷ es) = ground (arith, all, le, l) in
        inl (
          kept_run-drop d (e ∷ es) (omega (arith, whole, l))
          ∙ (ap (λ n. n - d) whole ∙ sym (length-drop d (e ∷ es))))

Ends-later :
    (len to b : ℕ) (rest : List Edit) (r : ℕ)
    → Ends len (to + b) (drop b rest) r
    → Ends len to rest r
Ends-later len to b rest r h = record {
  reached = omega (arith, h.reached);
  inside = h.inside;
  calm =
      subst IsCalm
        (drop-drop (r - (to + b)) b rest ∙ ap (λ n. drop n rest) (omega (arith, h.reached))) h.calm;
}

IsCalm-nil : (d : ℕ) → IsCalm (drop d [])
unfolding kept_run
IsCalm-nil d = subst IsCalm (sym (drop-nil d)) (inl refl)

kept_run-first : (e : Edit) (es : List Edit) → not (op_eq e.op keep) ≡ false → 1 ≤ kept_run (e ∷ es)
unfolding kept_run
kept_run-first e es h = ground arith

pub hunk_end-Ends :
    (fuel len to : ℕ) (rest : List Edit)
    → length rest ≤ fuel
    → len ≡ to + length rest
    → Ends len to rest (hunk_end fuel len to rest)
unfolding hunk_end
hunk_end-Ends zero len to [] f l = record {
  reached = omega arith;
  inside = omega (arith, l);
  calm = IsCalm-nil (to - to);
}
hunk_end-Ends zero len to (e ∷ es) f l = absurd (omega (arith, f))
hunk_end-Ends (suc fuel) len to [] f l = record {
  reached = omega arith;
  inside = omega (arith, l);
  calm = IsCalm-nil (to - to);
}
hunk_end-Ends (suc fuel) len to (e ∷ es) f l =
    let run = kept_run (e ∷ es) in
    if-cases (Ends len to (e ∷ es)) (not (op_eq e.op keep)) (hunk_end fuel len (to + 1) es) _
      (λ changed.
        Ends-later len to 1 (e ∷ es) _
          (hunk_end-Ends fuel len (to + 1) es (omega (arith, f)) (omega (arith, l))))
      (λ kept.
        if-cases (Ends len to (e ∷ es)) (ltb (to + run) len && leb run (2 * context_lines))
          (hunk_end fuel len (to + run) (drop run (e ∷ es))) (min len (to + context_lines))
          (λ close.
            let shorter = length-drop run (e ∷ es) in
            let first = kept_run-first e es kept in
            let le = kept_run-le-length (e ∷ es) in
            Ends-later len to run (e ∷ es) _ (
              hunk_end-Ends fuel len (to + run) (drop run (e ∷ es))
                (omega (arith, shorter, first, f)) (omega (arith, shorter, le, l))))
          (λ stop. Ends-now len to e es l stop))

-- Past an edit that changes a line, the hunk ends later.
pub hunk_end-past :
    (fuel len to : ℕ) (e : Edit) (es : List Edit)
    → op_eq e.op keep ≡ false
    → suc (length es) ≤ suc fuel
    → len ≡ to + suc (length es)
    → to < hunk_end (suc fuel) len to (e ∷ es)
unfolding hunk_end
hunk_end-past fuel len to e es c f l =
    let later = hunk_end-Ends fuel len (to + 1) es (omega (arith, f)) (omega (arith, l)) in
    rw c (omega (arith, later.reached))
