-- ===== src/Apply/Owed/Insert.antt =====
-- internal/apply/owed.go, addOwed: where the owed steps of earlier turns go in a plan.
use mathlib.Core.Path.{subst}
use regied.Prelude.{
  ℕ, ◌≤◌, ◌≡◌, refl, sym, ◌∙◌, ◌⊎◌, inl, inr, String, Bool, true, false, not, ◌||◌, List, [], ◌∷◌,
  ◌++◌, All, All-map, arith, mem, cut_prefix, Bool-cases,
}
use regied.Apply.Types.{rank, Step, OwedStep, Plan}
use regied.Apply.Services.{Options, Probes}
use regied.Apply.Steps.Order.{InOrder}
use regied.Apply.Host.{Host}
use regied.Apply.Owed.{
  Codec, owed_key, owed_step, owed_command, owable, link_gone, last_arg, insert_step, present,
  skips, add_each, add_owed, read_owed,
}
use regied.Apply.Owed.Present.{
  add_each-InOrder, mem_cons_of_mem, mem-cons_self, present-insert_step, AllPresent,
  AllPresent-insert, AllPresent-mem,
}
use regied.Apply.Owed.Runnable.{CanBeOwed, IsForGoneLink, CanBeOwed-owable, link_gone-IsForGoneLink}

-- What an owed step that is not in the plan has against it.
abbrev Unrunnable : Probes → OwedStep → Type 0
Unrunnable probes o =
    (owable (owed_command o) ≡ false)
    ⊎ (link_gone probes (owed_command o) (cut_prefix (last_arg o.args) "/sys/class/net/") ≡ true)

add_each-monotone :
    (probes : Probes) (keys : List String) (os : List OwedStep) (steps : List Step)
    (owed : List OwedStep) (k : String)
    → mem k (present steps) ≡ true
    → mem k (present (add_each probes keys os steps owed).0) ≡ true
unfolding add_each
add_each-monotone probes keys [] steps owed k h = h
add_each-monotone probes keys (o ∷ os) steps owed k h = elim (Bool-cases (skips probes keys o)) [
  | inl yes' ↦ rw yes' (add_each-monotone probes keys os steps owed k h)
  | inr no' ↦ rw no' (
      add_each-monotone probes (owed_key (owed_step o) ∷ keys) os (insert_step (owed_step o) steps)
        (owed ++ o ∷ []) k
        (present-insert_step k (owed_step o) steps
          ∙ mem_cons_of_mem k (owed_key (owed_step o)) (present steps) h))
]

-- A step that is skipped is in the plan already, or cannot run.
skips_because :
    (probes : Probes) (keys : List String) (o : OwedStep)
    → skips probes keys o ≡ true
    → (mem (owed_key (owed_step o)) keys ≡ true) ⊎ Unrunnable probes o
unfolding skips
skips_because probes keys o h =
    three (mem (owed_key (owed_step o)) keys) (owable (owed_command o)) _ h
  where
    three : (a b c : Bool) → (a || (not b || c)) ≡ true → (a ≡ true) ⊎ ((b ≡ false) ⊎ (c ≡ true))
    three a b c h = ground arith

-- One round of the loop.
add_each_skip :
    (probes : Probes) (keys : List String) (o : OwedStep) (os : List OwedStep) (steps : List Step)
    (owed : List OwedStep)
    → skips probes keys o ≡ true
    → add_each probes keys (o ∷ os) steps owed ≡ add_each probes keys os steps owed
unfolding add_each
add_each_skip probes keys o os steps owed h = rw h

add_each_add :
    (probes : Probes) (keys : List String) (o : OwedStep) (os : List OwedStep) (steps : List Step)
    (owed : List OwedStep)
    → skips probes keys o ≡ false
    → add_each probes keys (o ∷ os) steps owed
      ≡ add_each probes
          (owed_key (owed_step o) ∷ keys)
          os
          (insert_step (owed_step o) steps)
          (owed ++ o ∷ [])
unfolding add_each
add_each_add probes keys o os steps owed h = rw h

inserted_present :
    (o : OwedStep) (steps : List Step)
    → mem (owed_key (owed_step o)) (present (insert_step (owed_step o) steps)) ≡ true
inserted_present o steps =
    present-insert_step (owed_key (owed_step o)) (owed_step o) steps
    ∙ mem-cons_self _ (present steps)

-- An owed step is in the plan in the end, or cannot run.
abbrev IsPlaced : Probes → List Step → OwedStep → Type 0
IsPlaced probes steps o =
    (mem (owed_key (owed_step o)) (present steps) ≡ true) ⊎ Unrunnable probes o

add_each_complete :
    (probes : Probes) (keys : List String) (os : List OwedStep) (steps : List Step)
    (owed : List OwedStep) (r : List Step × List OwedStep)
    → AllPresent keys steps
    → add_each probes keys os steps owed ≡ r
    → All (IsPlaced probes r.0) os
add_each_complete probes keys [] steps owed r h e = tt
add_each_complete probes keys (o ∷ os) steps owed r h e = elim (Bool-cases (skips probes keys o)) [
  | inl skipped ↦
      let e' = sym (add_each_skip probes keys o os steps owed skipped) ∙ e in
      (
        placed e' (skips_because probes keys o skipped),
        add_each_complete probes keys os steps owed r h e',
      )
  | inr added ↦
      let k = owed_key (owed_step o) in
      let steps' = insert_step (owed_step o) steps in
      let e' = sym (add_each_add probes keys o os steps owed added) ∙ e in
      (
        inl (
            subst (λ (q : List Step × List OwedStep). mem k (present q.0) ≡ true) e'
              (add_each-monotone probes (k ∷ keys) os steps' (owed ++ o ∷ []) k
                (inserted_present o steps))),
        add_each_complete probes (k ∷ keys) os steps' (owed ++ o ∷ []) r
            (inserted_present o steps, AllPresent-insert keys (owed_step o) steps h) e',
      )
]
  where
    placed :
        add_each probes keys os steps owed ≡ r
        → (mem (owed_key (owed_step o)) keys ≡ true) ⊎ Unrunnable probes o
        → IsPlaced probes r.0 o
    placed e' (inl m) = inl (
        subst (λ (q : List Step × List OwedStep). mem (owed_key (owed_step o)) (present q.0) ≡ true)
          e' (add_each-monotone probes keys os steps owed _ (AllPresent-mem _ keys steps h m)))
    placed e' (inr u) = inr u

AllPresent-self : (steps : List Step) → AllPresent (present steps) steps
AllPresent-self [] = tt
AllPresent-self (s ∷ steps) =
    (mem-cons_self (owed_key s) (present steps), weaken (present steps) (AllPresent-self steps))
  where
    weaken : (ks : List String) → AllPresent ks steps → AllPresent ks (s ∷ steps)
    weaken [] h = tt
    weaken (k ∷ ks) h = (mem_cons_of_mem k (owed_key s) (present steps) h.0, weaken ks h.1)

-- An owed step is in the plan, or is not one that a turn can leave owed, or its link is gone.
abbrev pub ComesBack : Probes → List Step → OwedStep → Type 0
ComesBack probes steps o =
    (mem (owed_key (owed_step o)) (present steps) ≡ true)
    ⊎ ((CanBeOwed o.name o.args → ⊥) ⊎ IsForGoneLink probes o.name o.args)

IsPlaced-ComesBack :
    (probes : Probes) (steps : List Step) (o : OwedStep)
    → IsPlaced probes steps o
    → ComesBack probes steps o
IsPlaced-ComesBack probes steps o (inl h) = inl h
IsPlaced-ComesBack probes steps o (inr (inl h)) = inr (inl (λ c. let q = CanBeOwed-owable c in cc))
IsPlaced-ComesBack probes steps o (inr (inr h)) =
    inr (inr (link_gone-IsForGoneLink probes o _ refl h))

module _ {W : Type 0} (codec : Codec) (host : Host W) (probes : Probes) (opts : Options) (w : W)
    (plan : Plan) where
  -- Putting the owed steps of earlier turns in keeps the order of the phases.
  pub add_owed-InOrder :
      (n : ℕ)
      → All (λ o. n ≤ rank o.phase) (read_owed codec host opts w).0
      → InOrder n plan.steps
      → InOrder n (add_owed codec host probes opts w plan).steps
  unfolding add_owed
  add_owed-InOrder n late h =
      add_each-InOrder n probes (present plan.steps) (read_owed codec host opts w).0 plan.steps _
        late h

  -- Every owed step that was read is a step of the plan in the end, unless it is not one that a turn
  -- can leave owed, which are the reloads of networkd, of udev's rules and of systemd's units and a
  -- trigger of udev for a link, or the host no more has the link that it is for.
  pub add_owed_complete :
      All
        (ComesBack probes (add_owed codec host probes opts w plan).steps)
        (read_owed codec host opts w).0
  unfolding add_owed
  add_owed_complete = All-map (IsPlaced-ComesBack probes _) _ (
      add_each_complete probes (present plan.steps) (read_owed codec host opts w).0 plan.steps _ _
        (AllPresent-self plan.steps) refl)
