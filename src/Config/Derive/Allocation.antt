-- ===== src/Config/Derive/Allocation.antt =====
-- The allocator's loop ends at a number that is free, within its fuel.
use regied.Prelude.{
  ℕ, zero, suc, ◌+◌, ◌≤◌, ◌<◌, Bool, true, false, ◌≡◌, refl, List, [], ◌∷◌, ◌++◌, length,
  length-append, arith, leb, if◌then◌else◌, ℤ, pos, negsuc, mem_ℤ, Bool-cases, inl, inr,
}
use regied.Config.Derive.{Allocator, skip, next, reserve}

-- how many numbers of a list are at or above `n`
abbrev from_on : ℕ → ℤ → Bool
from_on n (pos k) = leb n k
from_on n (negsuc k) = false

abbrev count_from : ℕ → List ℤ → ℕ
count_from n [] = 0
count_from n (x ∷ xs) = let rest = count_from n xs in if from_on n x then suc rest else rest

count_from-le-length : (n : ℕ) (xs : List ℤ) → count_from n xs ≤ length xs
count_from-le-length n [] = omega arith
count_from-le-length n (x ∷ xs) = ground (arith, count_from-le-length n xs)

count_from-step : (n : ℕ) (xs : List ℤ) → count_from (n + 1) xs ≤ count_from n xs
count_from-step n [] = omega arith
count_from-step n (pos k ∷ xs) = ground (arith, count_from-step n xs)
count_from-step n (negsuc k ∷ xs) = count_from-step n xs

count_from-mem :
    (n : ℕ) (xs : List ℤ) → mem_ℤ (pos n) xs ≡ true → count_from (n + 1) xs < count_from n xs
count_from-mem n [] h = cc
count_from-mem n (pos k ∷ xs) h = ground (arith, count_from-mem n xs, count_from-step n xs)
count_from-mem n (negsuc k ∷ xs) h = count_from-mem n xs h

pub mem_ℤ-append_left : (a : ℤ) (xs ys : List ℤ) → mem_ℤ a xs ≡ true → mem_ℤ a (xs ++ ys) ≡ true
mem_ℤ-append_left a [] ys h = cc
mem_ℤ-append_left a (x ∷ xs) ys h = ground (arith, mem_ℤ-append_left a xs ys)

pub mem_ℤ-append_right : (a : ℤ) (xs ys : List ℤ) → mem_ℤ a ys ≡ true → mem_ℤ a (xs ++ ys) ≡ true
mem_ℤ-append_right a [] ys h = h
mem_ℤ-append_right a (x ∷ xs) ys h = ground (arith, mem_ℤ-append_right a xs ys)

-- `usable` refuses only numbers of `refused`.
abbrev pub RefusesOnly : (ℕ → Bool) → List ℤ → Type 0
RefusesOnly usable refused = (n : ℕ) → usable n ≡ false → mem_ℤ (pos n) refused ≡ true

-- With more fuel than there are blocked numbers ahead, the loop stops at a free one.
skip_free :
    (fuel : ℕ) (usable : ℕ → Bool) (taken refused : List ℤ) (n : ℕ)
    → RefusesOnly usable refused
    → count_from n (taken ++ refused) < fuel
    → (mem_ℤ (pos (skip fuel usable taken n)) taken ≡ false)
      × (usable (skip fuel usable taken n) ≡ true)
      × (n ≤ skip fuel usable taken n)
unfolding skip
skip_free zero usable taken refused n h lt = elim lt [ ]
skip_free (suc fuel) usable taken refused n h lt = elim (Bool-cases (mem_ℤ (pos n) taken)) [
  | inl held ↦
      let fewer =
        count_from-mem n (taken ++ refused) (mem_ℤ-append_left (pos n) taken refused held) in
      let ih = skip_free fuel usable taken refused (n + 1) h (omega arith) in
      rw held (ih.0, ih.1, omega arith)
  | inr free ↦ elim (Bool-cases (usable n)) [
    | inl good ↦ rw (free, good) (free, good, omega arith)
    | inr bad ↦
        let fewer =
          count_from-mem n (taken ++ refused)
            (mem_ℤ-append_right (pos n) taken refused (h n bad)) in
        let ih = skip_free fuel usable taken refused (n + 1) h (omega arith) in
        rw (free, bad) (ih.0, ih.1, omega arith)
  ]
]

-- `next` hands out a number that is usable and not taken, takes it, and moves past it.
pub next_fresh :
    (usable : ℕ → Bool) (refused : List ℤ) (a : Allocator)
    → RefusesOnly usable refused
    → length refused ≤ 4
    → (mem_ℤ (pos (next usable a).0) a.taken ≡ false)
      × (usable (next usable a).0 ≡ true)
      × ((next usable a).1.taken ≡ pos (next usable a).0 ∷ a.taken)
      × (a.next_ ≤ (next usable a).0)
      × ((next usable a).1.next_ ≡ (next usable a).0 + 1)
unfolding next
next_fresh usable refused a h short =
    let few = count_from-le-length a.next_ (a.taken ++ refused) in
    let free =
      skip_free (length a.taken + 5) usable a.taken refused a.next_ h
        (omega (arith, length-append a.taken refused)) in
    (free.0, free.1, refl, free.2, refl)

-- What the allocator has handed out stays within the count of what is taken or refused.
abbrev pub IsCompact : ℕ → List ℤ → Allocator → Type 0
IsCompact first refused a =
    a.next_ + count_from a.next_ (a.taken ++ refused) ≤ first + length a.taken + length refused

skip_compact :
    (fuel : ℕ) (usable : ℕ → Bool) (taken refused : List ℤ) (n : ℕ)
    → RefusesOnly usable refused
    → skip fuel usable taken n + count_from (skip fuel usable taken n) (taken ++ refused)
      ≤ n + count_from n (taken ++ refused)
unfolding skip
skip_compact zero usable taken refused n h = omega arith
skip_compact (suc fuel) usable taken refused n h = elim (Bool-cases (mem_ℤ (pos n) taken)) [
  | inl held ↦
      let fewer =
        count_from-mem n (taken ++ refused) (mem_ℤ-append_left (pos n) taken refused held) in
      let ih = skip_compact fuel usable taken refused (n + 1) h in rw held (omega arith)
  | inr free ↦ elim (Bool-cases (usable n)) [
    | inl good ↦ rw (free, good) (omega arith)
    | inr bad ↦
        let fewer =
          count_from-mem n (taken ++ refused)
            (mem_ℤ-append_right (pos n) taken refused (h n bad)) in
        let ih = skip_compact fuel usable taken refused (n + 1) h in rw (free, bad) (omega arith)
  ]
]

pub next-IsCompact :
    (usable : ℕ → Bool) (first : ℕ) (refused : List ℤ) (a : Allocator)
    → RefusesOnly usable refused
    → IsCompact first refused a
    → IsCompact first refused (next usable a).1
      × ((next usable a).0 ≤ first + length a.taken + length refused)
unfolding next
next-IsCompact usable first refused a h c =
    let n = skip (length a.taken + 5) usable a.taken a.next_ in
    let least = skip_compact (length a.taken + 5) usable a.taken refused a.next_ h in
    let step = count_from-step n (a.taken ++ refused) in (ground arith, omega arith)

pub reserve-IsCompact :
    (first : ℕ) (refused : List ℤ) (a : Allocator) (k : ℤ)
    → IsCompact first refused a
    → IsCompact first refused (reserve a k)
unfolding reserve
reserve-IsCompact first refused a k c = ground arith
