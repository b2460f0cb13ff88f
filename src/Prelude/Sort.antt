-- ===== src/Prelude/Sort.antt =====
-- slices.SortStableFunc and slices.SortFunc: insertion, which puts an element before the first one
-- that does not compare below it.
use Prim.Native.Nat.{suc, Ordering}
use Prim.Native.String.{String}
use mathlib.Core.Path.{◌≡◌, refl}
use mathlib.Core.Bool.{Bool, true, false}
use mathlib.Core.List.{List, [], ◌∷◌, map}
use native.Mathlib.Omega.{arith}
use text.Mathlib.TextEquality.{eq_iff}
use regied.Prelude.Tests.{if◌then◌else◌, if-cases}
use mathlib.Core.List.Perm
use mathlib.Core.List.{Perm}
use regied.Prelude.Lists.{length, All}
use regied.Prelude.Maps.{mem}

abbrev pub is_gt : Ordering → Bool
is_gt Ordering.gt = true
is_gt _ = false

-- cmp.Or of two orders
abbrev pub or_else : Ordering → Ordering → Ordering
or_else Ordering.eq o = o
or_else Ordering.lt o = Ordering.lt
or_else Ordering.gt o = Ordering.gt

module _ {ℓ} {A : Type ℓ} where
  unfoldable pub insert_sorted : (A → A → Ordering) → A → List A → List A
  insert_sorted cmp x [] = x ∷ []
  insert_sorted cmp x (y ∷ ys) = if is_gt (cmp x y) then y ∷ insert_sorted cmp x ys else x ∷ y ∷ ys

  unfoldable pub sort : (A → A → Ordering) → List A → List A
  unfolding insert_sorted
  sort cmp [] = []
  sort cmp (x ∷ xs) = insert_sorted cmp x (sort cmp xs)

  length-insert_sorted :
      (cmp : A → A → Ordering) (x : A) (ys : List A)
      → length (insert_sorted cmp x ys) ≡ suc (length ys)
  unfolding insert_sorted
  length-insert_sorted cmp x [] = refl
  length-insert_sorted cmp x (y ∷ ys) = ground (arith, length-insert_sorted cmp x ys)

  pub length-sort : (cmp : A → A → Ordering) (xs : List A) → length (sort cmp xs) ≡ length xs
  unfolding sort
  length-sort cmp [] = refl
  length-sort cmp (x ∷ xs) =
      ground (arith, length-insert_sorted cmp x (sort cmp xs), length-sort cmp xs)

  mem-insert_sorted :
      (key : A → String) (cmp : A → A → Ordering) (n : String) (x : A) (ys : List A)
      → mem n (map key (insert_sorted cmp x ys)) ≡ mem n (map key (x ∷ ys))
  unfolding insert_sorted
  mem-insert_sorted key cmp n x [] = refl
  mem-insert_sorted key cmp n x (y ∷ ys) =
      ground (arith, mem-insert_sorted key cmp n x ys, eq_iff (key x) n, eq_iff (key y) n)

  -- Sorting changes no name's membership.
  pub mem-sort :
      (key : A → String) (cmp : A → A → Ordering) (n : String) (xs : List A)
      → mem n (map key (sort cmp xs)) ≡ mem n (map key xs)
  unfolding sort
  mem-sort key cmp n [] = refl
  mem-sort key cmp n (x ∷ xs) =
      ground (
        arith,
        mem-insert_sorted key cmp n x (sort cmp xs),
        mem-sort key cmp n xs,
        eq_iff (key x) n,
      )

-- A predicate of every element, sorted.
module _ {ℓ κ} {A : Type ℓ} (P : A → Type κ) (cmp : A → A → Ordering) where
  All-insert_sorted : (x : A) (ys : List A) → P x → All P ys → All P (insert_sorted cmp x ys)
  unfolding insert_sorted
  All-insert_sorted x [] px h = (px, tt)
  All-insert_sorted x (y ∷ ys) px h =
      if-cases (All P) (is_gt (cmp x y)) (y ∷ insert_sorted cmp x ys) (x ∷ y ∷ ys)
        (λ t. (h.0, All-insert_sorted x ys px h.1)) (λ f. (px, h))

  pub All-sort : (xs : List A) → All P xs → All P (sort cmp xs)
  unfolding sort
  All-sort [] h = tt
  All-sort (x ∷ xs) h = All-insert_sorted x (sort cmp xs) h.0 (All-sort xs h.1)

-- Sorting keeps every element as often as it is there.
module _ {ℓ} {A : Type ℓ} (cmp : A → A → Ordering) where
  Perm-insert_sorted : (x : A) (ys : List A) → Perm (x ∷ ys) (insert_sorted cmp x ys)
  unfolding insert_sorted
  Perm-insert_sorted x [] = Perm.refl _
  Perm-insert_sorted x (y ∷ ys) =
      if-cases (Perm (x ∷ y ∷ ys)) (is_gt (cmp x y)) (y ∷ insert_sorted cmp x ys) (x ∷ y ∷ ys)
        (λ t. Perm.trans (Perm.swap y x ys) (Perm.cons y (Perm-insert_sorted x ys)))
        (λ f. Perm.refl _)

  pub Perm-sort : (xs : List A) → Perm xs (sort cmp xs)
  unfolding sort
  Perm-sort [] = Perm.refl _
  Perm-sort (x ∷ xs) = Perm.trans (Perm.cons x (Perm-sort xs)) (Perm-insert_sorted x (sort cmp xs))
