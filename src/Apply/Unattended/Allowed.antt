-- ===== src/Apply/Unattended/Allowed.antt =====
-- unattendedPlan of internal/apply/turn.go: what becomes of each step in an unattended turn.
use mathlib.Core.Path.{subst}
use regied.Prelude.{
  ℕ, ◌≡◌, refl, sym, ◌∙◌, ap, String, true, false, Option, none, some, List, [], ◌∷◌, ◌++◌,
  append-nil, ◌⋅◌, ltb, get, if-cases,
}
use regied.Apply.Types.{Step, Plan, describe}
use regied.Apply.Unattended.{
  Retry, Pass, is_forbidden, attempt_step, fail, held_line, after_known, one_step, all_steps,
  pass_over, unattended_plan,
}
use regied.Apply.Unattended.Forbidden.{
  TakesNothingDown, TakesDown, is_forbidden-false, is_forbidden-true,
}

module _ {W : Type 0} (clock : W → ℕ × W) (clock_text : ℕ → String) where
  -- The steps that are run, in their order, and the lines that are reported for the others.
  pub data Splits : List Step → List Step → List String → Type 0 where
    nothing : Splits [] [] []
    goes :
        (s : Step) {ss ts : List Step} {ls : List String}
        → TakesNothingDown s
        → Splits ss ts ls
        → Splits (s ∷ ss) (s ∷ ts) ls
    is_held :
        (s : Step) (r : Retry) {ss ts : List Step} {ls : List String}
        → TakesNothingDown s
        → Splits ss ts ls
        → Splits (s ∷ ss) ts (held_line clock clock_text (describe s) r ∷ ls)
    stays :
        (s : Step) {ss ts : List Step} {ls : List String}
        → TakesDown s
        → Splits ss ts ls
        → Splits
            (s ∷ ss)
            ts
            ((s.reason ⋅ ": an unattended turn does not take down something that is up") ∷ ls)

  -- `q` is `p` with the steps gone through.
  pub record Passed (ss : List Step) (p q : Pass W) : Type 0 where
    pub more_steps : List Step
    pub lines : List String
    pub steps : q.steps ≡ p.steps ++ more_steps
    pub failing : q.failing ≡ p.failing ++ lines
    pub splits : Splits ss more_steps lines

  cons_append : {A : Type 0} (x : A) (xs ys : List A) → (xs ++ x ∷ []) ++ ys ≡ xs ++ x ∷ ys
  cons_append x [] ys = refl
  cons_append x (y ∷ xs) ys = ap (λ zs. y ∷ zs) (cons_append x xs ys)

  -- The rest of the pass.
  abbrev Rest : List Step → Pass W → Type 0
  Rest ss p = Passed ss p (all_steps clock clock_text ss p)

  module _ (s : Step) (ss : List Step) (p : Pass W) where
    abbrev From : Pass W → Type 0
    From q = Passed (s ∷ ss) p (all_steps clock clock_text ss q)

    then_goes :
        (q : Pass W)
        → is_forbidden s ≡ false
        → q.steps ≡ p.steps ++ s ∷ []
        → q.failing ≡ p.failing
        → Rest ss q
        → From q
    then_goes q ok e f r = record {
      more_steps = s ∷ r.more_steps;
      lines = r.lines;
      steps = r.steps ∙ (ap (λ xs. xs ++ r.more_steps) e ∙ cons_append s p.steps r.more_steps);
      failing = r.failing ∙ ap (λ xs. xs ++ r.lines) f;
      splits = goes s (is_forbidden-false s ok) r.splits;
    }

    then_held :
        (q : Pass W) (t : Retry)
        → is_forbidden s ≡ false
        → q.steps ≡ p.steps
        → q.failing ≡ p.failing ++ held_line clock clock_text (describe s) t ∷ []
        → Rest ss q
        → From q
    then_held q t ok e f r = record {
      more_steps = r.more_steps;
      lines = held_line clock clock_text (describe s) t ∷ r.lines;
      steps = r.steps ∙ ap (λ xs. xs ++ r.more_steps) e;
      failing = r.failing ∙ (ap (λ xs. xs ++ r.lines) f ∙ cons_append _ p.failing r.lines);
      splits = is_held s t (is_forbidden-false s ok) r.splits;
    }

    then_stays :
        (q : Pass W)
        → is_forbidden s ≡ true
        → q.steps ≡ p.steps
        → q.failing
          ≡ p.failing
            ++ (s.reason ⋅ ": an unattended turn does not take down something that is up") ∷ []
        → Rest ss q
        → From q
    then_stays q ok e f r = record {
      more_steps = r.more_steps;
      lines = (s.reason ⋅ ": an unattended turn does not take down something that is up") ∷ r.lines;
      steps = r.steps ∙ ap (λ xs. xs ++ r.more_steps) e;
      failing = r.failing ∙ (ap (λ xs. xs ++ r.lines) f ∙ cons_append _ p.failing r.lines);
      splits = stays s (is_forbidden-true s ok) r.splits;
    }

    after_known-From :
        (o : Option Retry) (q : Pass W)
        → is_forbidden s ≡ false
        → q.steps ≡ p.steps
        → q.failing ≡ p.failing
        → ((u : Pass W) → Rest ss u)
        → From (after_known clock clock_text s (describe s) o q)
    unfolding after_known attempt_step fail
    after_known-From none q ok e f rest =
        let again =
          attempt_step clock clock_text s (describe s) (record { attempts = 0; next = 0 }) q in
        then_goes again ok (ap (λ xs. xs ++ s ∷ []) e) f (rest again)
    after_known-From (some r) q ok e f rest =
        let line = held_line clock clock_text (describe s) r in
        let asked : Pass W = record q { world = (clock q.world).1 } in
        let waits = fail clock clock_text line asked in
        let again = attempt_step clock clock_text s (describe s) r asked in
        if-cases From (ltb (clock q.world).0 r.next) waits again
          (λ early. then_held waits r ok e (ap (λ xs. xs ++ line ∷ []) f) (rest waits))
          (λ late. then_goes again ok (ap (λ xs. xs ++ s ∷ []) e) f (rest again))

    one_step-From : ((u : Pass W) → Rest ss u) → From (one_step clock clock_text s p)
    unfolding one_step fail
    one_step-From rest =
        let taken =
          fail clock clock_text
            (s.reason ⋅ ": an unattended turn does not take down something that is up") p in
        let key = describe s in
        let seen : Pass W = record p { present = key ∷ p.present } in
        if-cases From (is_forbidden s) taken
          (after_known clock clock_text s key (get key p.retries) seen)
          (λ no'. then_stays taken no' refl refl (rest taken))
          (λ ok. after_known-From (get key p.retries) seen ok refl refl rest)

  all_steps-Rest : (ss : List Step) (p : Pass W) → Rest ss p
  unfolding all_steps
  all_steps-Rest [] p = record {
    more_steps = [];
    lines = [];
    steps = sym (append-nil p.steps);
    failing = sym (append-nil p.failing);
    splits = nothing;
  }
  all_steps-Rest (s ∷ ss) p = one_step-From s ss p (all_steps-Rest ss)

  -- What an unattended turn makes of a plan: `kept` are its steps, and `lines` is what it adds to
  -- the failures.
  pub record Unattends (original plan : Plan) : Type 0 where
    pub lines : List String
    pub failing : plan.failing ≡ original.failing ++ lines
    pub splits : Splits original.steps plan.steps lines

  -- Every step of the plan that was computed is run in its place by the unattended turn, or is
  -- reported with a line of its own, in the same order. A step that is run, or that waits for its time,
  -- removes no file and is no systemctl call with the word restart or disable; one that is left out
  -- for good removes a file or is such a call.
  pub unattended_plan-Unattends :
      (original : Plan) (retries : List (String × Retry)) (w : W)
      → Unattends original (unattended_plan clock clock_text original retries w).0
  unfolding unattended_plan pass_over
  unattended_plan-Unattends original retries w =
      let r = all_steps-Rest original.steps (record {
        steps = [];
        failing = original.failing;
        retries = retries;
        present = [];
        world = w;
      }) in
      record {
        lines = r.lines;
        failing = r.failing;
        splits = subst (λ ts. Splits original.steps ts r.lines) (sym r.steps) r.splits;
      }
