-- ===== src/Apply/Unattended/Backoff.antt =====
-- When an unattended turn tries a step again.
use mathlib.Core.Path.{subst}
use regied.Prelude.{
  ℕ, suc, ◌+◌, ◌≤◌, ◌≡◌, refl, sym, ◌∙◌, ◌⊎◌, inl, inr, String, true, false, Option, none, some,
  List, [], ◌∷◌, All, All-append, ◌=ˢ◌, eq_iff, ltb, mem, get, put, get-put, arith, if-cases,
  Bool-cases,
}
use regied.Apply.Types.{Step, Plan, describe}
use regied.Apply.Unattended.{
  Retry, Pass, is_forbidden, second, backoff, attempt_step, fail, held_line, after_known, one_step,
  all_steps, keep_present, pass_over, unattended_plan,
}
use regied.Apply.Unattended.Delay.{backoff_grows}

module _ {W : Type 0} (clock : W → ℕ × W) (clock_text : ℕ → String) (t : ℕ)
    (still : (w : W) → (clock w).0 ≡ t) (before : List (String × Retry)) where
  -- The step was never tried, or its time has come.
  pub data IsDue (retries : List (String × Retry)) (key : String) : Type 0 where
    never : get key retries ≡ none → IsDue retries key
    due : (r : Retry) → get key retries ≡ some r → r.next ≤ t → IsDue retries key

  -- The step waits for a second at least.
  pub record Waits (retries : List (String × Retry)) (key : String) : Type 0 where
    pub retry : Retry
    pub stored : get key retries ≡ some retry
    pub later : t + second ≤ retry.next

  abbrev HasRun : Pass W → Step → Type 0
  HasRun p s =
      IsDue before (describe s) × Waits p.retries (describe s) × (mem (describe s) p.present ≡ true)

  record PassInv (p : Pass W) : Type 0 where
    known : (k : String) → (get k p.retries ≡ get k before) ⊎ Waits p.retries k
    ran : All (HasRun p) p.steps

  All-map : {P Q : Step → Type 0} (ss : List Step) → ((s : Step) → P s → Q s) → All P ss → All Q ss
  All-map [] f h = tt
  All-map (s ∷ ss) f h = (f s h.0, All-map ss f h.1)

  mem_more : (k j : String) (ks : List String) → mem k ks ≡ true → mem k (j ∷ ks) ≡ true
  mem_more k j ks h = ground arith

  mem_first : (k : String) (ks : List String) → mem k (k ∷ ks) ≡ true
  mem_first k ks = ground (arith, eq_iff k k)

  seen-PassInv :
      (p : Pass W) (k : String) → PassInv p → PassInv (record p { present = k ∷ p.present })
  seen-PassInv p k v = record {
    known = v.known;
    ran = All-map p.steps (λ s h. (h.0, h.1, mem_more (describe s) k p.present h.2)) v.ran;
  }

  Waits-put :
      (k j : String) (r : Retry) (retries : List (String × Retry))
      → t + second ≤ r.next
      → (k ≡ j) ⊎ Waits retries j
      → Waits (put k r retries) j
  Waits-put k j r retries later w = elim (Bool-cases (k =ˢ j)) [
    | inl same ↦ record { retry = r; stored = get-put k j r retries ∙ rw same refl; later = later }
    | inr other ↦ still_waits other w
  ]
    where
      still_waits : (k =ˢ j) ≡ false → (k ≡ j) ⊎ Waits retries j → Waits (put k r retries) j
      still_waits other (inl same) = cc (other, (eq_iff k j).1 same)
      still_waits other (inr v) = record {
        retry = v.retry;
        stored = get-put k j r retries ∙ rw other v.stored;
        later = v.later;
      }

  known-put :
      (k j : String) (r : Retry) (retries : List (String × Retry))
      → t + second ≤ r.next
      → (get j retries ≡ get j before) ⊎ Waits retries j
      → (get j (put k r retries) ≡ get j before) ⊎ Waits (put k r retries) j
  known-put k j r retries later (inr w) = inr (Waits-put k j r retries later (inr w))
  known-put k j r retries later (inl e) = elim (Bool-cases (k =ˢ j)) [
    | inl same ↦ inr (Waits-put k j r retries later (inl ((eq_iff k j).0 same)))
    | inr other ↦ inl (get-put k j r retries ∙ rw other e)
  ]

  next_later : (r : Retry) (w : W) → t + second ≤ (clock w).0 + backoff (suc r.attempts)
  next_later r w =
      let g = backoff_grows (suc r.attempts) (suc r.attempts) (omega arith) in
      omega (arith, still w, g.0)

  attempt_step-PassInv :
      (s : Step) (r : Retry) (p : Pass W)
      → IsDue before (describe s)
      → mem (describe s) p.present ≡ true
      → PassInv p
      → PassInv (attempt_step clock clock_text s (describe s) r p)
  unfolding attempt_step
  attempt_step-PassInv s r p d m v =
      let key = describe s in
      let r' : Retry = record {
        attempts = suc r.attempts;
        next = (clock p.world).0 + backoff (suc r.attempts);
      } in
      let later = next_later r p.world in
      record {
        known = λ k. known-put key k r' p.retries later (v.known k);
        ran =
            All-append _ p.steps (s ∷ [])
              (All-map p.steps
                (λ u h. (h.0, Waits-put key (describe u) r' p.retries later (inr h.1), h.2)) v.ran)
              ((d, Waits-put key key r' p.retries later (inl refl), m), tt);
      }

  -- What is due in the course of the pass was due before it.
  was-IsDue :
      (p : Pass W) (k : String) (o : Option Retry)
      → PassInv p
      → get k p.retries ≡ o
      → ((r : Retry) → o ≡ some r → r.next ≤ t)
      → IsDue before k
  was-IsDue p k o v e come = by_known o e come (v.known k)
    where
      by_known :
          (o : Option Retry)
          → get k p.retries ≡ o
          → ((r : Retry) → o ≡ some r → r.next ≤ t)
          → (get k p.retries ≡ get k before) ⊎ Waits p.retries k
          → IsDue before k
      by_known none e come (inl same) = never (sym same ∙ e)
      by_known (some r) e come (inl same) = due r (sym same ∙ e) (come r refl)
      by_known o e come (inr w) =
          let l = come w.retry (sym e ∙ w.stored) in absurd (omega (arith, l, w.later))

  after_known-PassInv :
      (s : Step) (o : Option Retry) (p : Pass W)
      → get (describe s) p.retries ≡ o
      → mem (describe s) p.present ≡ true
      → PassInv p
      → PassInv (after_known clock clock_text s (describe s) o p)
  unfolding after_known fail
  after_known-PassInv s none p e m v =
      attempt_step-PassInv s (record { attempts = 0; next = 0 }) p
        (was-IsDue p (describe s) none v e (λ r q. cc)) m v
  after_known-PassInv s (some r) p e m v =
      let asked : Pass W = record p { world = (clock p.world).1 } in
      let v' : PassInv asked = record { known = v.known; ran = v.ran } in
      if-cases PassInv (ltb (clock p.world).0 r.next)
        (fail clock clock_text (held_line clock clock_text (describe s) r) asked)
        (attempt_step clock clock_text s (describe s) r asked)
        (λ early. record { known = v.known; ran = v.ran })
        (λ late.
          attempt_step-PassInv s r asked
            (was-IsDue p (describe s) (some r) v e
              (λ q same. not_early (clock p.world).0 r q late (still p.world) same))
            m v')
    where
      not_early :
          (now : ℕ) (r q : Retry) → ltb now r.next ≡ false → now ≡ t → some r ≡ some q → q.next ≤ t
      not_early now r q late e same =
          let l : r.next ≤ t = ground (arith, late, e) in
          subst
            (λ (x : Option Retry). elim x as (λ _. Type 0) [
              | none ↦ Unit {0}
              | some y ↦ y.next ≤ t
            ])
            same l

  one_step-PassInv : (s : Step) (p : Pass W) → PassInv p → PassInv (one_step clock clock_text s p)
  unfolding one_step fail
  one_step-PassInv s p v =
      let key = describe s in
      let seen : Pass W = record p { present = key ∷ p.present } in
      if-cases PassInv (is_forbidden s) _
        (after_known clock clock_text s key (get key p.retries) seen)
        (λ no'. record { known = v.known; ran = v.ran })
        (λ ok.
          after_known-PassInv s (get key p.retries) seen refl (mem_first key p.present)
            (seen-PassInv p key v))

  all_steps-PassInv :
      (ss : List Step) (p : Pass W) → PassInv p → PassInv (all_steps clock clock_text ss p)
  unfolding all_steps
  all_steps-PassInv [] p v = v
  all_steps-PassInv (s ∷ ss) p v = all_steps-PassInv ss _ (one_step-PassInv s p v)

  get-keep_present :
      (k : String) (present : List String) (retries : List (String × Retry))
      → mem k present ≡ true
      → get k (keep_present present retries) ≡ get k retries
  unfolding keep_present get
  get-keep_present k present [] h = refl
  get-keep_present k present ((j, r) ∷ retries) h =
      ground (arith, eq_iff j k, get-keep_present k present retries h)

  -- The step was due, and waits now.
  pub record IsOnce (after : List (String × Retry)) (s : Step) : Type 0 where
    pub was_due : IsDue before (describe s)
    pub now_waits : Waits after (describe s)

  -- While the clock stands still in a turn, the unattended turn runs a step only if it was never
  -- tried or its time had come, and every step that it runs is not due again before a second has
  -- passed.
  pub unattended_plan-IsOnce :
      (plan : Plan) (w : W)
      → let r = unattended_plan clock clock_text plan before w in All (IsOnce r.1) r.0.steps
  unfolding unattended_plan pass_over
  unattended_plan-IsOnce plan w =
      let p = all_steps clock clock_text plan.steps (record {
        steps = [];
        failing = plan.failing;
        retries = before;
        present = [];
        world = w;
      }) in
      let v = all_steps-PassInv plan.steps _ (record { known = λ k. inl refl; ran = tt }) in
      All-map p.steps
        (λ s h. record {
          was_due = h.0;
          now_waits = record {
            retry = h.1.retry;
            stored = get-keep_present (describe s) p.present p.retries h.2 ∙ h.1.stored;
            later = h.1.later;
          };
        })
        v.ran
