-- ===== src/Config/Checks/Cycles/Ends.antt =====
-- internal/config/validate.go, checkDerivationCycles: the walk ends. The fuel of a walk is one more than
-- the resources of the document, and every resource that a walk goes on to is put on the stack once.
use regied.Prelude.{
  ℕ, zero, suc, ◌+◌, ◌<◌, ◌≤◌, Bool, true, false, List, [], ◌∷◌, ◌++◌, length, if◌then◌else◌,
  if-cases, Bool-cases, ◌==◌, ◌≡◌, refl, inl, inr, ==_iff, arith, All,
}
use regied.Api.Document.{Resource}
use regied.Config.Resolve.{Check}
use regied.Config.Checks.Cycles.{
  Edge, Walk, mem_position, derivation_edges, walk_edges, walk, walk_from, check_derivation_cycles,
}
use regied.Config.Checks.Cycles.Edges.{IsBelow, derivation_edges-IsBelow}

abbrev is_free : Bool → ℕ
is_free true = 0
is_free false = 1

-- how many of the first positions are not on the stack
free : ℕ → List ℕ → ℕ
free zero stack = 0
free (suc n) stack = is_free (mem_position n stack) + free n stack

free-le : (n : ℕ) (stack : List ℕ) → free n stack ≤ n
unfolding free
free-le zero stack = omega arith
free-le (suc n) stack = ground (arith, free-le n stack)

mem_position-append :
    (m n : ℕ) (stack : List ℕ)
    → mem_position m (stack ++ n ∷ []) ≡ (if n == m then true else mem_position m stack)
unfolding mem_position
mem_position-append m n [] = refl
mem_position-append m n (k ∷ ks) = ground (arith, mem_position-append m n ks)

free-above : (k n : ℕ) (stack : List ℕ) → k ≤ n → free k (stack ++ n ∷ []) ≡ free k stack
unfolding free
free-above zero n stack h = refl
free-above (suc k) n stack h =
    ground (arith, mem_position-append k n stack, ==_iff n k, free-above k n stack (omega arith))

free-push :
    (k n : ℕ) (stack : List ℕ)
    → n < k
    → mem_position n stack ≡ false
    → free k (stack ++ n ∷ []) + 1 ≡ free k stack
unfolding free
free-push zero n stack h f = absurd (omega arith)
free-push (suc k) n stack h f = elim (Bool-cases (n == k)) [
  | inl same ↦
      let e = (==_iff n k).0 same in
      let m = mem_position-append k n stack in
      let above = free-above k n stack (omega arith) in
      let f' : mem_position k stack ≡ false = rw e at f in rw (m, same, above, f') (omega arith)
  | inr other ↦
      let m = mem_position-append k n stack in
      rw (m, other) (let p = free-push k n stack (ground (arith, ==_iff n k)) f in omega arith)
]

abbrev IsFed : Check Walk → Type 0
IsFed m = m.value.starved ≡ false

module _ (order : List Resource) where
  walk_edges-IsFed :
      (go : List ℕ → ℕ → List ℕ → Check Walk) (stack : List ℕ)
      → ((m : ℕ) (done : List ℕ)
          → m < length order
          → mem_position m stack ≡ false
          → IsFed (go stack m done))
      → (n : ℕ) (done : List ℕ) (es : List Edge) → All (IsBelow (length order)) es
      → IsFed (walk_edges go order n stack done es)
  unfolding walk_edges
  walk_edges-IsFed go stack each n done [] below = refl
  walk_edges-IsFed go stack each n done (e ∷ es) below =
      if-cases IsFed (mem_position e.to stack) _ _ (λ t. refl)
        (λ f.
          let w = go stack e.to done in
          let fed = each e.to done below.0 f in
          elim (Bool-cases w.value.found) [
            | inl t ↦ rw t fed
            | inr k ↦ rw (k, fed) (walk_edges-IsFed go stack each n w.value.done es below.1)
          ])

  walk-IsFed :
      (fuel : ℕ) (stack : List ℕ) (n : ℕ) (done : List ℕ)
      → n < length order
      → mem_position n stack ≡ false
      → free (length order) stack < fuel
      → IsFed (walk fuel order stack n done)
  unfolding walk
  walk-IsFed zero stack n done h f enough = absurd (omega arith)
  walk-IsFed (suc fuel) stack n done h f enough =
      if-cases IsFed (mem_position n done) _ _ (λ t. refl)
        (λ k.
          walk_edges-IsFed (walk fuel order) (stack ++ n ∷ [])
            (λ m done' hm fm.
              walk-IsFed fuel (stack ++ n ∷ []) m done' hm fm
                (let p = free-push (length order) n stack h f in omega arith))
            n done (derivation_edges order n) (derivation_edges-IsBelow order n))

  walk_from-IsFed :
      (left n : ℕ) (done : List ℕ) → n + left ≡ length order → IsFed (walk_from order left n done)
  unfolding walk_from mem_position
  walk_from-IsFed zero n done sum = refl
  walk_from-IsFed (suc left) n done sum =
      let w = walk (length order + 1) order [] n done in
      let p = free-le (length order) [] in
      let fed = walk-IsFed (length order + 1) [] n done (omega arith) refl (omega arith) in
      rw fed (walk_from-IsFed left (n + 1) w.value.done (omega arith))

-- The search for cycles ends by itself on every document: its fuel does not run out, whatever the
-- document refers to.
pub check_derivation_cycles_ends :
    (order : List Resource) → (check_derivation_cycles order).value.starved ≡ false
unfolding check_derivation_cycles
check_derivation_cycles_ends order = walk_from-IsFed order (length order) 0 [] (omega arith)
