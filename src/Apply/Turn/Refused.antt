-- ===== src/Apply/Turn/Refused.antt =====
-- A turn that fails before its first command.
use mathlib.Core.Path.{subst}
use regied.Prelude.{
  ℕ, ◌≡◌, refl, sym, ◌∙◌, ap, ◌≤◌, String, Bool, true, false, Option, none, some, List, [], ◌∷◌,
  ◌++◌, arith, if◌then◌else◌,
}
use regied.Ddns.{Writer}
use regied.Apply.Types.{staging, rank, Step, Plan}
use regied.Apply.Services.{Options}
use regied.Apply.Steps.Order.{InOrder}
use regied.Apply.Host.{Host, KeptByFiles}
use regied.Apply.Owed.{Codec}
use regied.Apply.Settling.Effects.{settle_owed-Kept}
use regied.Apply.Staging.Effects.{stage-Kept}
use regied.Apply.Commit.{TurnError}
use regied.Apply.Commit.Stops.{commit-Stopped}
use regied.Apply.Turn.{
  Turned, done, failed, Accept, run_accept, noted, after_commit, after_accept, after_stage,
  after_empty, empty_turn, full_turn, stage_and_commit, settle_after, turn, is_empty,
}

-- No step of an ordered plan is in an earlier phase than the plan's first may be.
InOrder-rank :
    {n : ℕ} (before after : List Step) (s : Step) (steps : List Step)
    → steps ≡ before ++ s ∷ after
    → InOrder n steps
    → n ≤ rank s.phase
InOrder-rank {n} before after s steps e h = at_split n before (subst (InOrder n) e h)
  where
    at_split : (m : ℕ) (xs : List Step) → InOrder m (xs ++ s ∷ after) → m ≤ rank s.phase
    at_split m [] i = i.0
    at_split m (x ∷ xs) i = omega (arith, i.0, at_split (rank x.phase) xs i.1)

error_of : TurnError → Turned → TurnError
error_of f (failed e) = e
error_of f (done r) = f

no_staging : 1 ≤ rank staging → ⊥
no_staging h = omega (arith, h)

module _ {W : Type 0} (host : Host W) (opts : Options) (P : W → Type 0) (keeps : KeptByFiles host P)
    (codec : Codec) (accept : Accept W) (own : (v : W) → P v → P (run_accept accept v).1) where
  -- A turn that failed in the staging phase left P.
  abbrev IsSafe : Turned × Plan × Writer × W → Type 0
  IsSafe t = (f : TurnError) → t.0 ≡ failed f → f.phase ≡ staging → P t.3

  after_commit-IsSafe :
      (o : Option TurnError) (p : Plan) (d : Writer) (w : W)
      → ((f : TurnError) → o ≡ some f → 1 ≤ rank f.phase)
      → IsSafe (after_commit host opts o p d w)
  unfolding after_commit error_of
  after_commit-IsSafe none p d w late f e s = cc
  after_commit-IsSafe (some g) p d w late f e s =
      let k : g ≡ f = ap (error_of g) e in
      let l : 1 ≤ rank staging =
        subst (λ x. 1 ≤ rank x) (ap (λ (x : TurnError). x.phase) k ∙ s) (late g refl) in
      absurd (no_staging l)

  after_accept-IsSafe :
      (plan : Plan) (e : Option String) (d : Writer) (w : W)
      → InOrder 1 plan.steps
      → P w
      → IsSafe (after_accept host opts plan e d w)
  unfolding after_accept
  after_accept-IsSafe plan (some e) d w h p = λ f q s. p
  after_accept-IsSafe plan none d w h p = after_commit-IsSafe _ _ _ _ (λ f q.
      let c = commit-Stopped host plan d w f q in
      subst (λ x. 1 ≤ rank x) (sym c.failed.in_phase)
        (InOrder-rank c.before c.after c.last plan.steps c.split h))

  after_stage-IsSafe :
      (plan : Plan) (e : Option String) (d : Writer) (w : W)
      → InOrder 1 plan.steps
      → P w
      → IsSafe (after_stage host opts accept plan e d w)
  unfolding after_stage
  after_stage-IsSafe plan (some e) d w h p = λ f q s. p
  after_stage-IsSafe plan none d w h p = after_accept-IsSafe plan _ d _ h (own w p)

  after_empty-Kept :
      (plan : Plan) (e : Option String) (d : Writer) (w : W)
      → P w
      → P (after_empty host opts plan e d w).3
  unfolding after_empty
  after_empty-Kept plan none d w p = p
  after_empty-Kept plan (some e) d w p = p

  if-IsSafe :
      (b : Bool) (x y : Turned × Plan × Writer × W)
      → IsSafe x
      → IsSafe y
      → IsSafe (if b then x else y)
  if-IsSafe true x y h k = h
  if-IsSafe false x y h k = k

  stage_and_commit-IsSafe :
      (plan : Plan) (d : Writer) (w : W)
      → InOrder 1 plan.steps
      → P w
      → IsSafe (stage_and_commit host opts accept plan d w)
  unfolding stage_and_commit empty_turn full_turn
  stage_and_commit-IsSafe plan d w h p =
      if-IsSafe (is_empty plan) _ _ (λ f q s. after_empty-Kept plan _ d _ (own w p))
        (after_stage-IsSafe plan _ d _ h (stage-Kept host P keeps plan w p))

  noted_phase :
      (r : Turned) (e : Option String) (f : TurnError)
      → noted r e ≡ failed f
      → (g : TurnError) × (r ≡ failed g) × (g.phase ≡ f.phase)
  unfolding noted error_of
  noted_phase (failed g) none f h = (g, refl, ap (λ r. (error_of g r).phase) h)
  noted_phase (failed g) (some e) f h = (g, refl, ap (λ r. (error_of g r).phase) h)
  noted_phase (done g) none f h = cc
  noted_phase (done g) (some e) f h = cc

  -- A turn that fails in the staging phase has run none of the plan's commands, given steps in the
  -- order of the phases after staging: every property of the host that the calls on files keep, and
  -- that the accepting keeps, still holds, whatever failed and whether or not what is owed could be
  -- settled.
  pub turn-Kept :
      (plan : Plan) (d : Writer) (w : W) (f : TurnError)
      → InOrder 1 plan.steps
      → (turn host opts codec accept plan d w).0 ≡ failed f
      → f.phase ≡ staging
      → P w
      → P (turn host opts codec accept plan d w).3
  unfolding turn settle_after
  turn-Kept plan d w f h e s p =
      let t = stage_and_commit host opts accept plan d w in
      let n = noted_phase t.0 _ f e in
      settle_owed-Kept host opts P keeps codec t.1 t.3
        (stage_and_commit-IsSafe plan d w h p n.0 n.1 (n.2 ∙ s))
