-- ===== src/Config/Validate/Quiet.antt =====
-- internal/config/validate.go, the small helpers: what follows when a check reports no error.
use regied.Prelude.{
  ℕ, ◌+◌, Bool, true, false, some, List, [], ◌∷◌, ◌++◌, String, Bool-cases, Option-cases, ◌≡◌, refl,
  inl, inr, arith, All,
}
use regied.Api.Document.{Kind, Resource}
use regied.Config.Problem.{Problem, has_errors, is_error}
use regied.Config.Resolve.{Validator, Check, required, each_at, resolve, find_among}

-- A check that reports no error.
abbrev pub Quiet : {A : Type 0} → Check A → Type 0
Quiet m = has_errors m.reports ≡ false

pub errors_parts :
    (xs ys : List Problem)
    → has_errors (xs ++ ys) ≡ false
    → (has_errors xs ≡ false) × (has_errors ys ≡ false)
unfolding has_errors
errors_parts [] ys h = (refl, h)
errors_parts (x ∷ xs) ys h = elim (Bool-cases (is_error x.severity)) [
  | inl t ↦ absurd (let c = rw t at h in ground arith)
  | inr f ↦ let r = errors_parts xs ys (rw f at h) in (rw f r.0, r.1)
]

abbrev joined : List (List Problem) → List Problem
joined [] = []
joined (xs ∷ []) = xs
joined (xs ∷ ys ∷ rest) = xs ++ joined (ys ∷ rest)

-- The parts of a sequence of checks that reports nothing report nothing.
pub split :
    (parts : List (List Problem))
    → has_errors (joined parts) ≡ false
    → All (λ xs. has_errors xs ≡ false) parts
split [] h = tt
split (xs ∷ []) h = (h, tt)
split (xs ∷ ys ∷ rest) h =
    let p = errors_parts xs (joined (ys ∷ rest)) h in (p.0, split (ys ∷ rest) p.1)

-- What is required is there.
pub required-Quiet :
    (r : Resource) (field : String) (present : Bool)
    → Quiet (required r field present)
    → (required r field present).value ≡ true
unfolding required has_errors
required-Quiet r field true h = refl
required-Quiet r field false h = absurd (ground arith)

-- A loop that reports nothing does so for each element.
pub each_at-Quiet :
    {A : Type 0} (f : ℕ → A → Check (Unit {0})) (i : ℕ) (xs : List A)
    → Quiet (each_at f i xs)
    → All (λ x. (j : ℕ) × Quiet (f j x)) xs
unfolding each_at
each_at-Quiet f i [] h = tt
each_at-Quiet f i (x ∷ xs) h =
    let parts = errors_parts (f i x).reports _ h in
    ((i, parts.0), each_at-Quiet f (i + 1) xs parts.1)

-- A reference that is not reported is resolved.
pub resolve-Quiet :
    (v : Validator) (r : Resource) (field name : String) (allowed : List Kind) (category : String)
    → Quiet (resolve v r field name allowed category)
    → (found : Resource) × (find_among allowed name v.index ≡ some found)
unfolding resolve has_errors
resolve-Quiet v r field name allowed category h =
    elim (Option-cases (find_among allowed name v.index)) [
      | inr found ↦ found
      | inl e ↦ absurd (let c = rw (e, resolve) at h in ground arith)
    ]
