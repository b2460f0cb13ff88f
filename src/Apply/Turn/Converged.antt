-- ===== src/Apply/Turn/Converged.antt =====
-- A turn that succeeds.
use regied.Prelude.{
  ◌≡◌, refl, ◌∙◌, ap, String, Bool, true, false, Option, none, some, List, [], ◌∷◌, ◌++◌, All, mem,
  arith, if◌then◌else◌, sort,
}
use regied.Ddns.{Writer}
use regied.Apply.Types.{Step, OwedStep, Plan}
use regied.Apply.Services.{Options}
use regied.Apply.Host.{Host, FileLaws}
use regied.Apply.Owed.{Codec, key_of, read_owed}
use regied.Apply.Settling.{not_ran, compare_owed, left_owed}
use regied.Apply.Settling.Readback.{CodecLaws, read_left_owed}
use regied.Apply.Commit.{TurnError}
use regied.Apply.Commit.Completes.{host_keys, left_owed-commit}
use regied.Apply.Turn.{
  Turned, done, failed, TurnResult, Accept, noted, after_commit, after_accept, after_stage,
  after_empty, empty_turn, full_turn, stage_and_commit, settle_after, turn, is_empty, any_step,
}

-- The owed steps of the plan are among its steps.
abbrev pub OwesOwn : Plan → Type 0
OwesOwn plan = All (λ o. mem (key_of o) (host_keys plan.steps) ≡ true) plan.owed

no_steps : (plan : Plan) → is_empty plan ≡ true → plan.steps ≡ []
unfolding is_empty any_step
no_steps plan h = by_steps plan.steps (ground arith)
  where
    by_steps : (ss : List Step) → any_step ss ≡ false → ss ≡ []
    by_steps [] e = refl
    by_steps (s ∷ ss) e = cc

owes_none :
    (os : List OwedStep) (ss : List Step)
    → ss ≡ []
    → All (λ o. mem (key_of o) (host_keys ss) ≡ true) os
    → os ≡ []
owes_none [] ss e a = refl
owes_none (o ∷ os) [] e a = cc
owes_none (o ∷ os) (s ∷ ss) e a = cc

left_owed_none : (plan : Plan) → plan.owed ≡ [] → left_owed plan ≡ []
unfolding left_owed not_ran sort
left_owed_none plan e = ap (λ os. sort compare_owed (not_ran plan.ran os)) e

result_of : TurnResult → Turned → TurnResult
result_of r (done q) = q
result_of r (failed e) = r

some_note : (xs : List String) (x : String) {A : Type 0} → xs ++ x ∷ [] ≡ [] → A
some_note [] x h = cc
some_note (y ∷ xs) x h = cc

-- A result without notes was settled without an error.
noted_done :
    (r : Turned) (e : Option String) (q : TurnResult)
    → noted r e ≡ done q
    → q.notes ≡ []
    → (e ≡ none) × (r ≡ done q)
unfolding noted result_of
noted_done (done p) none q h n = (refl, h)
noted_done (done p) (some x) q h n = some_note p.notes x (ap (λ r. (result_of p r).notes) h ∙ n)
noted_done (failed p) none q h n = cc
noted_done (failed p) (some x) q h n = cc

module _ {W : Type 0} (host : Host W) (opts : Options) (accept : Accept W) (plan : Plan)
    (own : OwesOwn plan) where
  abbrev NothingOwed : Turned × Plan × Writer × W → Type 0
  NothingOwed t = (r : TurnResult) → t.0 ≡ done r → left_owed t.1 ≡ []

  after_commit-NothingOwed :
      (o : Option TurnError) (p : Plan) (d : Writer) (w : W)
      → (o ≡ none → left_owed p ≡ [])
      → NothingOwed (after_commit host opts o p d w)
  unfolding after_commit
  after_commit-NothingOwed none p d w h r e = h refl
  after_commit-NothingOwed (some f) p d w h r e = cc

  after_accept-NothingOwed :
      (e : Option String) (d : Writer) (w : W) → NothingOwed (after_accept host opts plan e d w)
  unfolding after_accept
  after_accept-NothingOwed (some e) d w = λ r h. cc
  after_accept-NothingOwed none d w =
      after_commit-NothingOwed _ _ _ _ (left_owed-commit host plan d w own)

  after_stage-NothingOwed :
      (e : Option String) (d : Writer) (w : W)
      → NothingOwed (after_stage host opts accept plan e d w)
  unfolding after_stage
  after_stage-NothingOwed (some e) d w = λ r h. cc
  after_stage-NothingOwed none d w = after_accept-NothingOwed _ d _

  after_empty-same :
      (e : Option String) (d : Writer) (w : W) → (after_empty host opts plan e d w).1 ≡ plan
  unfolding after_empty
  after_empty-same none d w = refl
  after_empty-same (some e) d w = refl

  if-NothingOwed :
      (b : Bool) (x y : Turned × Plan × Writer × W)
      → (b ≡ true → NothingOwed x)
      → NothingOwed y
      → NothingOwed (if b then x else y)
  if-NothingOwed true x y h k = h refl
  if-NothingOwed false x y h k = k

  stage_and_commit-NothingOwed :
      (d : Writer) (w : W) → NothingOwed (stage_and_commit host opts accept plan d w)
  unfolding stage_and_commit empty_turn full_turn
  stage_and_commit-NothingOwed d w =
      if-NothingOwed (is_empty plan) _ _
        (λ b r h.
          ap left_owed (after_empty-same _ d _)
          ∙ left_owed_none plan (owes_none plan.owed plan.steps (no_steps plan b) own))
        (after_stage-NothingOwed _ d _)

module _ {W : Type 0} (host : Host W) (laws : FileLaws host) (opts : Options) (codec : Codec)
    (yaml : CodecLaws codec) where
  -- A turn whose owed steps are among its steps, and that succeeds with nothing to note, leaves
  -- nothing owed: the next turn reads no owed step, whatever was owed before and whatever the host
  -- was like.
  pub read_owed-turn :
      (accept : Accept W) (plan : Plan) (d : Writer) (w : W) (r : TurnResult)
      → OwesOwn plan
      → (turn host opts codec accept plan d w).0 ≡ done r
      → r.notes ≡ []
      → (read_owed codec host opts (turn host opts codec accept plan d w).3).0 ≡ []
  unfolding turn settle_after
  read_owed-turn accept plan d w r own e n =
      let t = stage_and_commit host opts accept plan d w in
      let q = noted_done t.0 _ r e n in
      read_left_owed host laws opts codec yaml t.1 t.3 q.0
      ∙ stage_and_commit-NothingOwed host opts accept plan own d w r q.1
