-- ===== src/Apply/Owed/Present.antt =====
-- Putting a step in its place: the order of the phases, and which steps are in the plan then.
use regied.Prelude.{
  ℕ, ◌≤◌, ◌≡◌, refl, ◌∙◌, inl, inr, String, true, List, [], ◌∷◌, ◌++◌, All, arith, eq_iff, ltb, mem,
  Bool-cases,
}
use regied.Apply.Types.{rank, Step, OwedStep}
use regied.Apply.Services.{Probes}
use regied.Apply.Steps.Order.{InOrder}
use regied.Apply.Owed.{owed_key, owed_step, insert_step, present, skips, add_each}

insert_step-InOrder :
    (n : ℕ) (s : Step) (ts : List Step)
    → n ≤ rank s.phase
    → InOrder n ts
    → InOrder n (insert_step s ts)
unfolding insert_step
insert_step-InOrder n s [] le h = (le, tt)
insert_step-InOrder n s (t ∷ ts) le h = elim (Bool-cases (ltb (rank s.phase) (rank t.phase))) [
  | inl before ↦ rw before (le, (ground arith, h.1))
  | inr after ↦ rw after (h.0, insert_step-InOrder (rank t.phase) s ts (ground arith) h.1)
]

pub add_each-InOrder :
    (n : ℕ) (probes : Probes) (keys : List String) (os : List OwedStep) (steps : List Step)
    (owed : List OwedStep)
    → All (λ o. n ≤ rank o.phase) os
    → InOrder n steps
    → InOrder n (add_each probes keys os steps owed).0
unfolding add_each owed_step
add_each-InOrder n probes keys [] steps owed a h = h
add_each-InOrder n probes keys (o ∷ os) steps owed a h = elim (Bool-cases (skips probes keys o)) [
  | inl yes' ↦ rw yes' (add_each-InOrder n probes keys os steps owed a.1 h)
  | inr no' ↦ rw no' (
      add_each-InOrder n probes (owed_key (owed_step o) ∷ keys) os (insert_step (owed_step o) steps)
        (owed ++ o ∷ []) a.1 (insert_step-InOrder n (owed_step o) steps a.0 h))
]

mem_swap : (k a b : String) (xs : List String) → mem k (a ∷ b ∷ xs) ≡ mem k (b ∷ a ∷ xs)
mem_swap k a b xs = ground arith

mem_cons_cong :
    (k a : String) (xs ys : List String) → mem k xs ≡ mem k ys → mem k (a ∷ xs) ≡ mem k (a ∷ ys)
mem_cons_cong k a xs ys h = rw h

pub mem_cons_of_mem : (k a : String) (xs : List String) → mem k xs ≡ true → mem k (a ∷ xs) ≡ true
mem_cons_of_mem k a xs h = ground arith

pub mem-cons_self : (k : String) (xs : List String) → mem k (k ∷ xs) ≡ true
mem-cons_self k xs = ground (arith, eq_iff k k)

-- What comes of the keys of the plan's steps when one is put in.
pub present-insert_step :
    (k : String) (s : Step) (ts : List Step)
    → mem k (present (insert_step s ts)) ≡ mem k (owed_key s ∷ present ts)
unfolding insert_step
present-insert_step k s [] = refl
present-insert_step k s (t ∷ ts) = elim (Bool-cases (ltb (rank s.phase) (rank t.phase))) [
  | inl before ↦ rw before
  | inr after ↦ rw after (
      mem_cons_cong k (owed_key t) _ (owed_key s ∷ present ts) (present-insert_step k s ts)
      ∙ mem_swap k (owed_key t) (owed_key s) (present ts))
]

-- `keys` are keys of the steps.
abbrev pub AllPresent : List String → List Step → Type 0
AllPresent keys steps = All (λ k. mem k (present steps) ≡ true) keys

pub AllPresent-insert :
    (keys : List String) (s : Step) (ts : List Step)
    → AllPresent keys ts
    → AllPresent keys (insert_step s ts)
AllPresent-insert [] s ts h = tt
AllPresent-insert (k ∷ keys) s ts h = (
  present-insert_step k s ts ∙ mem_cons_of_mem k (owed_key s) (present ts) h.0,
  AllPresent-insert keys s ts h.1,
)

pub AllPresent-mem :
    (k : String) (keys : List String) (ts : List Step)
    → AllPresent keys ts
    → mem k keys ≡ true
    → mem k (present ts) ≡ true
AllPresent-mem k [] ts h m = cc
AllPresent-mem k (j ∷ keys) ts h m = ground (arith, eq_iff j k, h.0, AllPresent-mem k keys ts h.1)
