-- ===== src/Prelude/Maps.antt =====
-- Go's maps and sets keyed by text, as association lists. No code modelled here depends on the
-- order in which Go ranges over a map.
use Prim.Native.String.{String}
use mathlib.Core.Path.{◌≡◌, refl, sym, ◌∙◌}
use mathlib.Core.Logic.{◌≢◌, ◌⊎◌, inl, inr}
use mathlib.Core.Bool.{Bool, true, false, false≢true}
use mathlib.Core.Option.{Option, none, some}
use mathlib.Core.List.{List, [], ◌∷◌}
use native.Mathlib.Omega.{arith}
use text.Mathlib.Text.{◌==◌}
use text.Mathlib.TextEquality.{eq_iff}
use regied.Prelude.Tests.{if◌then◌else◌, Bool-cases}

module _ {ℓ} {V : Type ℓ} where
  -- m[k], with its second result
  unfoldable pub get : String → List (String × V) → Option V
  get k [] = none
  get k ((j, v) ∷ m) = if j == k then some v else get k m

  -- m[k] = v
  unfoldable pub put : String → V → List (String × V) → List (String × V)
  put k v [] = (k, v) ∷ []
  put k v ((j, w) ∷ m) = if j == k then (k, v) ∷ m else (j, w) ∷ put k v m

  -- delete(m, k)
  unfoldable pub remove : String → List (String × V) → List (String × V)
  remove k [] = []
  remove k ((j, v) ∷ m) = let rest = remove k m in if j == k then rest else (j, v) ∷ rest

  pub get-put :
      (k j : String) (v : V) (m : List (String × V))
      → get j (put k v m) ≡ (if k == j then some v else get j m)
  unfolding get put
  get-put k j v [] = refl
  get-put k j v ((i, w) ∷ m) = ground (arith, eq_iff k j, eq_iff i k, eq_iff i j, get-put k j v m)

  pub get-remove :
      (k j : String) (m : List (String × V))
      → get j (remove k m) ≡ (if k == j then none else get j m)
  unfolding get remove
  get-remove k j [] = ground arith
  get-remove k j ((i, w) ∷ m) = ground (arith, eq_iff k j, eq_iff i k, eq_iff i j, get-remove k j m)

  pub get-nil : (k : String) → get k [] ≡ none
  unfolding get
  get-nil k = refl

-- membership in a list of texts
abbrev pub mem : String → List String → Bool
mem a [] = false
mem a (x ∷ xs) = let rest = mem a xs in if x == a then true else rest

module _ {ℓ} {V : Type ℓ} where
  -- What is found after a write is what was written, under its key, or what was there.
  pub get-put_cases :
      (k j : String) (v w : V) (m : List (String × V))
      → get j (put k v m) ≡ some w
      → ((k ≡ j) × (v ≡ w)) ⊎ ((k ≢ j) × (get j m ≡ some w))
  get-put_cases k j v w m h = elim (Bool-cases (k == j)) [
    | inl same ↦ inl ((eq_iff k j).0 same, cc (rw (get-put k j v m, same) at h))
    | inr other ↦
        inr (λ e. false≢true (sym other ∙ (eq_iff k j).1 e), rw (get-put k j v m, other) at h)
  ]
