-- ===== src/Config/Checks/Cycles/Acyclic.antt =====
-- internal/config/validate.go, checkDerivationCycles: what the walk leaves when it reports nothing.
use regied.Prelude.{
  ℕ, zero, suc, ◌+◌, ◌<◌, Bool, true, false, ◌||◌, some, List, [], ◌∷◌, ◌++◌, length, get_elem?,
  if-cases, Bool-cases, ◌==◌, ◌≡◌, refl, inl, inr, ==_iff, arith, All, String,
}
use regied.Api.Document.{Resource}
use regied.Config.Resolve.{Check}
use regied.Config.Checks.Cycles.{
  Edge, Walk, mem_position, derivation_edges, walk_edges, walk, walk_from, report_cycle,
}
use regied.Config.Checks.Cycles.Edges.{AllIn, IsFinished, Grows, IsBelow, derivation_edges-IsBelow}

-- What holds of a walk that reported nothing and did not run out of fuel.
abbrev pub Sound : (Walk → Type 0) → Check Walk → Type 0
Sound P m = m.reports ≡ [] → m.value.starved ≡ false → P m.value

-- A resource was walked: no cycle, and it is among what is done now.
record Reached (order : List Resource) (n : ℕ) (done : List ℕ) (w : Walk) : Type 0 where
  found : w.found ≡ false
  finished : IsFinished order w.done
  grows : Grows done w.done
  reached : mem_position n w.done ≡ true

record AllReached (order : List Resource) (es : List Edge) (done : List ℕ) (w : Walk) : Type 0 where
  found : w.found ≡ false
  finished : IsFinished order w.done
  grows : Grows done w.done
  reached : AllIn es w.done

pub append_parts : {A : Type 0} (xs ys : List A) → xs ++ ys ≡ [] → (xs ≡ []) × (ys ≡ [])
append_parts [] ys h = (refl, h)
append_parts (x ∷ xs) ys h = absurd (ground arith)

or_parts : (a b : Bool) → (a || b) ≡ false → (a ≡ false) × (b ≡ false)
or_parts false b h = (refl, h)
or_parts true b h = absurd (ground arith)

get_elem?-below :
    {A : Type 0} (xs : List A) (n : ℕ) → n < length xs → (x : A) × (get_elem? xs n ≡ some x)
get_elem?-below [] n h = absurd (ground arith)
get_elem?-below (x ∷ xs) zero h = (x, refl)
get_elem?-below (x ∷ xs) (suc n) h = get_elem?-below xs n (omega arith)

report_cycle-reports :
    (order : List Resource) (n : ℕ) (field message : String)
    → n < length order
    → (report_cycle order n field message).reports ≡ []
    → ⊥
unfolding report_cycle
report_cycle-reports order n field message h e =
    let (r, found) = get_elem?-below order n h in
    let e' = rw (found, report_cycle) at e in ground arith

mem_position_self : (n : ℕ) (ns : List ℕ) → mem_position n (n ∷ ns) ≡ true
unfolding mem_position
mem_position_self n ns = ground arith

pub mem_position-nil : (n : ℕ) → mem_position n [] ≡ true → ⊥
unfolding mem_position
mem_position-nil n h = ground arith

pub mem_position-cons : (n : ℕ) (ns : List ℕ) → Grows ns (n ∷ ns)
unfolding mem_position
mem_position-cons n ns m h = ground arith

module _ (order : List Resource) where
  -- The loop over the edges, by what holds of the walk of each.
  walk_edges-Sound :
      (go : List ℕ → ℕ → List ℕ → Check Walk)
      → ((stack : List ℕ) (m : ℕ) (done : List ℕ)
          → m < length order
          → IsFinished order done
          → Sound (Reached order m done) (go stack m done))
      → (n : ℕ) (stack done : List ℕ) (es : List Edge) → n < length order
      → IsFinished order done
      → All (IsBelow (length order)) es
      → Sound (AllReached order es done) (walk_edges go order n stack done es)
  unfolding walk_edges
  walk_edges-Sound go each n stack done [] hn fin below =
      λ quiet fed. record { found = refl; finished = fin; grows = λ m h. h; reached = tt }
  walk_edges-Sound go each n stack done (e ∷ es) hn fin below =
      if-cases (Sound (AllReached order (e ∷ es) done)) (mem_position e.to stack) _ _
        (λ t quiet fed.
          absurd (report_cycle-reports order n e.field _ hn (append_parts _ _ quiet).0))
        (λ f quiet fed.
          let w = go stack e.to done in
          let parts = append_parts w.reports _ quiet in
          elim (Bool-cases w.value.found) [
            | inl t ↦
                let fed' : w.value.starved ≡ false = rw t at fed in
                let r = each stack e.to done below.0 fin parts.0 fed' in
                absurd (let c = r.found in ground arith)
            | inr k ↦
                let rest = walk_edges go order n stack w.value.done es in
                let fed' : (w.value.starved || rest.value.starved) ≡ false = rw k at fed in
                let quiet' : rest.reports ++ [] ≡ [] = rw k at parts.1 in
                let fed2 = or_parts _ _ fed' in
                let r = each stack e.to done below.0 fin parts.0 fed2.0 in
                let s =
                  walk_edges-Sound go each n stack w.value.done es hn r.finished below.1
                    (append_parts _ _ quiet').0 fed2.1 in
                rw k (record {
                  found = s.found;
                  finished = s.finished;
                  grows = λ m h. s.grows m (r.grows m h);
                  reached = (s.grows e.to r.reached, s.reached);
                })
          ])

  walk-Sound :
      (fuel : ℕ) (stack : List ℕ) (n : ℕ) (done : List ℕ)
      → n < length order
      → IsFinished order done
      → Sound (Reached order n done) (walk fuel order stack n done)
  unfolding walk
  walk-Sound zero stack n done hn fin = λ quiet fed. absurd (ground arith)
  walk-Sound (suc fuel) stack n done hn fin =
      if-cases (Sound (Reached order n done)) (mem_position n done) _ _
        (λ t quiet fed. record { found = refl; finished = fin; grows = λ m h. h; reached = t })
        (λ f quiet fed.
          let s =
            walk_edges-Sound (walk fuel order) (walk-Sound fuel) n (stack ++ n ∷ []) done
              (derivation_edges order n) hn fin (derivation_edges-IsBelow order n)
              (append_parts _ _ quiet).0 fed in
          record {
            found = s.found;
            finished = (s.reached, s.finished);
            grows = λ m h. mem_position-cons n _ m (s.grows m h);
            reached = mem_position_self n _;
          })

  -- All of the positions from one on are walked.
  pub walk_from-Sound :
      (left n : ℕ) (done : List ℕ)
      → n + left ≡ length order
      → IsFinished order done
      → ((m : ℕ) → m < n → mem_position m done ≡ true)
      → Sound
          (λ w.
            IsFinished order w.done × ((m : ℕ) → m < length order → mem_position m w.done ≡ true))
          (walk_from order left n done)
  unfolding walk_from
  walk_from-Sound zero n done sum fin before = λ quiet fed. (fin, λ m h. before m (omega arith))
  walk_from-Sound (suc left) n done sum fin before = λ quiet fed.
      let w = walk (length order + 1) order [] n done in
      let parts = append_parts w.reports _ quiet in
      let rest = walk_from order left (n + 1) w.value.done in
      let fed2 = or_parts w.value.starved rest.value.starved fed in
      let r = walk-Sound (length order + 1) [] n done (omega arith) fin parts.0 fed2.0 in
      walk_from-Sound left (n + 1) w.value.done (omega arith) r.finished
        (λ m h. elim (Bool-cases (m == n)) [
          | inl same ↦ let e = (==_iff m n).0 same in rw e r.reached
          | inr other ↦ r.grows m (before m (let ne = (==_iff m n).1 in ground (arith, ==_iff m n)))
        ])
        (append_parts rest.reports [] parts.1).0 fed2.1
