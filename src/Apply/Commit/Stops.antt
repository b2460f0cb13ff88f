-- ===== src/Apply/Commit/Stops.antt =====
-- A commit that fails: how far it came and what it says.
use mathlib.Core.Path.{subst}
use regied.Prelude.{
  ◌≡◌, refl, sym, ◌∙◌, ap, ◌⊎◌, inl, inr, String, Bool, true, false, Option, none, some, List, [],
  ◌∷◌, ◌++◌, if◌then◌else◌,
}
use regied.Ddns.{Writer}
use regied.Apply.Types.{Step, Plan, describe}
use regied.Apply.Host.{Host}
use regied.Apply.Commit.{
  TurnError, is_dns, run, Verdict, goes_on, stops, mark_refused, verdict, commit_steps, commit,
}

pub Verdict-cases :
    (v : Verdict) → ((p : Plan) × (v ≡ goes_on p)) ⊎ ((f : TurnError) × (v ≡ stops f))
Verdict-cases (goes_on p) = inl (p, refl)
Verdict-cases (stops f) = inr (f, refl)

-- What the loop stops at, and what it says then.
pub record StopsAt (s : Step) (e : Option String) (failure : TurnError) : Type 0 where
  pub in_phase : failure.phase ≡ s.phase
  pub named : failure.step ≡ describe s
  pub caused : e ≡ some failure.cause
  pub not_dns : is_dns s.kind ≡ false

refused-StopsAt :
    (s : Step) (e : String) (plan : Plan) (failure : TurnError) (b : Bool)
    → is_dns s.kind ≡ b
    → (if b
        then goes_on (mark_refused s e plan)
        else stops (record { phase = s.phase; step = describe s; cause = e; notes = [] }))
      ≡ stops failure
    → StopsAt s (some e) failure
refused-StopsAt s e plan failure true h q = cc
refused-StopsAt s e plan failure false h q =
    let g = ap (λ v. elim v as (λ _. TurnError) [ stops x ↦ x | goes_on _ ↦ failure ]) q in
    record {
      in_phase = ap (λ (x : TurnError). x.phase) (sym g);
      named = ap (λ (x : TurnError). x.step) (sym g);
      caused = ap (λ (x : TurnError). some x.cause) g;
      not_dns = h;
    }

verdict-StopsAt :
    (s : Step) (e : Option String) (plan : Plan) (failure : TurnError)
    → verdict s e plan ≡ stops failure
    → StopsAt s e failure
unfolding verdict
verdict-StopsAt s none plan failure h = cc
verdict-StopsAt s (some e) plan failure h = refused-StopsAt s e plan failure (is_dns s.kind) refl h

module _ {W : Type 0} (host : Host W) where
  pub commit_nothing :
      (plan : Plan) (d : Writer) (w : W) → commit_steps host [] plan d w ≡ (none, plan, d, w)
  unfolding commit_steps
  commit_nothing plan d w = refl

  pub commit_goes :
      (s : Step) (ss : List Step) (plan plan' : Plan) (d : Writer) (w : W)
      → verdict s (run host s d w).0 plan ≡ goes_on plan'
      → commit_steps host (s ∷ ss) plan d w
        ≡ commit_steps host ss plan' (run host s d w).1 (run host s d w).2
  unfolding commit_steps
  commit_goes s ss plan plan' d w h = rw (commit_steps, h)

  pub commit_stops :
      (s : Step) (ss : List Step) (plan : Plan) (d : Writer) (w : W) (failure : TurnError)
      → verdict s (run host s d w).0 plan ≡ stops failure
      → commit_steps host (s ∷ ss) plan d w
        ≡ (some failure, plan, (run host s d w).1, (run host s d w).2)
  unfolding commit_steps
  commit_stops s ss plan d w failure h = rw (commit_steps, h)

  -- `last` failed: the steps before it went through, and made the plan, the writer and the host what
  -- they were when it ran.
  pub record Stopped (steps : List Step) (plan : Plan) (d : Writer) (w : W) (failure : TurnError)
      (out : Option TurnError × Plan × Writer × W) : Type 0 where
    pub before : List Step
    pub last : Step
    pub after : List Step
    pub writer : Writer
    pub world : W
    pub split : steps ≡ before ++ last ∷ after
    pub went : commit_steps host before plan d w ≡ (none, out.1, writer, world)
    pub last_writer : (run host last writer world).1 ≡ out.2
    pub last_world : (run host last writer world).2 ≡ out.3
    pub failed : StopsAt last (run host last writer world).0 failure

  commit_steps-Stopped :
      (steps : List Step) (plan : Plan) (d : Writer) (w : W) (failure : TurnError)
      (out : Option TurnError × Plan × Writer × W)
      → commit_steps host steps plan d w ≡ out
      → out.0 ≡ some failure
      → Stopped steps plan d w failure out
  commit_steps-Stopped [] plan d w failure out h f = none≢some
    where
      none≢some : Stopped [] plan d w failure out
      none≢some =
          let q =
            ap (λ (t : Option TurnError × Plan × Writer × W). t.0)
              (sym (commit_nothing plan d w) ∙ h)
            ∙ f in
          cc
  commit_steps-Stopped (s ∷ ss) plan d w failure out h f =
      elim (Verdict-cases (verdict s (run host s d w).0 plan)) [
        | inl (p, q) ↦
            let i =
              commit_steps-Stopped ss p (run host s d w).1 (run host s d w).2 failure out
                (sym (commit_goes s ss plan p d w q) ∙ h) f in
            record {
              before = s ∷ i.before;
              last = i.last;
              after = i.after;
              writer = i.writer;
              world = i.world;
              split = ap (λ xs. s ∷ xs) i.split;
              went = commit_goes s i.before plan p d w q ∙ i.went;
              last_writer = i.last_writer;
              last_world = i.last_world;
              failed = i.failed;
            }
        | inr (g, q) ↦
            let e = sym (commit_stops s ss plan d w g q) ∙ h in
            record {
              before = [];
              last = s;
              after = ss;
              writer = d;
              world = w;
              split = refl;
              went =
                  commit_nothing plan d w
                  ∙ ap (λ (t : Option TurnError × Plan × Writer × W). (none, t.1, d, w)) e;
              last_writer = ap (λ (t : Option TurnError × Plan × Writer × W). t.2) e;
              last_world = ap (λ (t : Option TurnError × Plan × Writer × W). t.3) e;
              failed =
                  subst (λ x. StopsAt s (run host s d w).0 x)
                    (only (ap (λ (t : Option TurnError × Plan × Writer × W). t.0) e ∙ f))
                    (verdict-StopsAt s (run host s d w).0 plan g q);
            }
      ]
    where
      only : {x y : TurnError} → some x ≡ some y → x ≡ y
      only {x} q = ap (λ o. elim o as (λ _. TurnError) [ some z ↦ z | none ↦ x ]) q

  -- A commit that fails stopped at a step that is not a DNS record: the steps before it all went
  -- through, the failing call is the last thing that happened to the host, no step after it ran, and
  -- the error names the phase, the description and the cause of that step.
  pub commit-Stopped :
      (plan : Plan) (d : Writer) (w : W) (failure : TurnError)
      → (commit host plan d w).0 ≡ some failure
      → Stopped plan.steps plan d w failure (commit host plan d w)
  unfolding commit
  commit-Stopped plan d w failure f = commit_steps-Stopped plan.steps plan d w failure _ refl f
