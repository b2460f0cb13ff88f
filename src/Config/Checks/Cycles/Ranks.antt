-- ===== src/Config/Checks/Cycles/Ranks.antt =====
-- internal/config/validate.go, checkDerivationCycles: the order in which the resources are done.
use regied.Prelude.{
  ℕ, suc, ◌<◌, ◌≤◌, true, false, List, [], ◌∷◌, length, if◌then◌else◌, if-cases, Bool-cases, ◌==◌,
  ◌≡◌, inl, inr, ==_iff, arith, All,
}
use regied.Api.Document.{Resource}
use regied.Config.Checks.Cycles.{Edge, mem_position, derivation_edges, check_derivation_cycles}
use regied.Config.Checks.Cycles.Edges.{AllIn, IsFinished, AllIn-Grows}
use regied.Config.Checks.Cycles.Acyclic.{mem_position-cons, mem_position-nil, walk_from-Sound}
use regied.Config.Checks.Cycles.Sources.{TakesFrom, TakesFrom-IsBelow, TakesFrom-lt}
use regied.Config.Checks.Cycles.Ends.{check_derivation_cycles_ends}

-- how far from the end a resource stands in what is done
abbrev pub rank : List ℕ → ℕ → ℕ
rank [] n = 0
rank (m ∷ ms) n = if mem_position n ms then rank ms n else suc (length ms)

rank-le : (done : List ℕ) (n : ℕ) → rank done n ≤ length done
rank-le [] n = omega arith
rank-le (m ∷ ms) n =
    if-cases (λ k. k ≤ suc (length ms)) (mem_position n ms) (rank ms n) (suc (length ms))
      (λ t. let p = rank-le ms n in omega arith) (λ f. omega arith)

abbrev Falls : List ℕ → ℕ → List Edge → Type 0
Falls done n es = All (λ e. rank done e.to < rank done n) es

Falls-cons :
    (m : ℕ) (ms : List ℕ) (n : ℕ) (es : List Edge)
    → mem_position n ms ≡ true
    → AllIn es ms
    → Falls ms n es
    → Falls (m ∷ ms) n es
Falls-cons m ms n [] h inside f = tt
Falls-cons m ms n (e ∷ es) h inside f = (rw (h, inside.0) f.0, Falls-cons m ms n es h inside.1 f.1)

Falls-first :
    (m : ℕ) (ms : List ℕ) (es : List Edge)
    → mem_position m ms ≡ false
    → AllIn es ms
    → Falls (m ∷ ms) m es
Falls-first m ms [] h inside = tt
Falls-first m ms (e ∷ es) h inside =
    (rw (h, inside.0) (let p = rank-le ms e.to in omega arith), Falls-first m ms es h inside.1)

inside_done :
    (order : List Resource) (done : List ℕ) (n : ℕ)
    → IsFinished order done
    → mem_position n done ≡ true
    → AllIn (derivation_edges order n) done
unfolding mem_position
inside_done order [] n fin h = absurd (ground arith)
inside_done order (m ∷ ms) n fin h = elim (Bool-cases (m == n)) [
  | inl same ↦
      let e = (==_iff m n).0 same in
      AllIn-Grows _ ms (m ∷ ms) (mem_position-cons m ms) (rw (← e) fin.0)
  | inr other ↦
      AllIn-Grows _ ms (m ∷ ms) (mem_position-cons m ms)
        (inside_done order ms n fin.1 (rw other at h))
]

mem_first :
    (m n : ℕ) (ms : List ℕ) → mem_position n (m ∷ ms) ≡ true → mem_position n ms ≡ false → m ≡ n
unfolding mem_position
mem_first m n ms h first = ground (arith, ==_iff m n)

falls :
    (order : List Resource) (done : List ℕ) (n : ℕ)
    → IsFinished order done
    → mem_position n done ≡ true
    → Falls done n (derivation_edges order n)
falls order [] n fin h = absurd (mem_position-nil n h)
falls order (m ∷ ms) n fin h = elim (Bool-cases (mem_position n ms)) [
  | inl later ↦
      Falls-cons m ms n _ later (inside_done order ms n fin.1 later) (falls order ms n fin.1 later)
  | inr first ↦
      let same : m ≡ n = mem_first m n ms h first in
      rw (← same) (Falls-first m ms _ (rw same first) fin.0)
]

abbrev pub walked : List Resource → List ℕ
walked order = (check_derivation_cycles order).value.done

walked_all :
    (order : List Resource)
    → (check_derivation_cycles order).reports ≡ []
    → IsFinished order (walked order)
      × ((m : ℕ) → m < length order → mem_position m (walked order) ≡ true)
unfolding check_derivation_cycles
walked_all order quiet =
    walk_from-Sound order (length order) 0 [] (omega arith) tt (λ m h. absurd (omega arith)) quiet
      (check_derivation_cycles_ends order)

-- When the search reports no cycle, the resources have ranks, and whatever takes a value of an
-- interface, which is an interface with an address out of a prefix delegated on that one or a tunnel
-- with that one's address as its local address, has a higher rank than that interface.
pub derivations_acyclic :
    (order : List Resource)
    → (check_derivation_cycles order).reports ≡ []
    → (rank_of : ℕ → ℕ) × ((n m : ℕ) → TakesFrom order n m → rank_of m < rank_of n)
derivations_acyclic order quiet =
    let s : IsFinished order (walked order)
        × ((m : ℕ) → m < length order → mem_position m (walked order) ≡ true) =
      walked_all order quiet in
    (
      rank (walked order),
      λ n m t.
          TakesFrom-IsBelow order (rank (walked order)) (rank (walked order) n) m n
            (falls order (walked order) n s.0 (s.1 n (TakesFrom-lt t))) t,
    )
