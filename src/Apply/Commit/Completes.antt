-- ===== src/Apply/Commit/Completes.antt =====
-- A commit that does not fail, and what every commit leaves in the plan.
use mathlib.Core.Path.{subst}
use regied.Prelude.{
  ◌≡◌, refl, sym, ◌∙◌, ap, inl, inr, String, Bool, true, false, Option, none, some, List, [], ◌∷◌,
  All, mem, arith, eq_iff, ◌=ˢ◌, if◌then◌else◌, Bool-cases, sort,
}
use regied.Ddns.{Writer}
use regied.Apply.Types.{Step, OwedStep, Plan, describe}
use regied.Apply.Host.{Host}
use regied.Apply.Owed.{owed_key, key_of}
use regied.Apply.Settling.{not_ran, left_owed}
use regied.Apply.Commit.{
  TurnError, is_dns, run, Verdict, goes_on, stops, mark_ran, mark_refused, verdict, commit_steps,
  commit,
}
use regied.Apply.Commit.Stops.{Verdict-cases, commit_goes, commit_stops, commit_nothing}

-- What ran and what was refused is only added to, and what is owed stays.
record Grows (p q : Plan) : Type 0 where
  ran : (k : String) → mem k p.ran ≡ true → mem k q.ran ≡ true
  refused : (k : String) → mem k p.failed_records ≡ true → mem k q.failed_records ≡ true
  owed : q.owed ≡ p.owed

Grows-refl : (p : Plan) → Grows p p
Grows-refl p = record { ran = λ k h. h; refused = λ k h. h; owed = refl }

Grows-trans : {p q r : Plan} → Grows p q → Grows q r → Grows p r
Grows-trans g h = record {
  ran = λ k m. h.ran k (g.ran k m);
  refused = λ k m. h.refused k (g.refused k m);
  owed = h.owed ∙ g.owed;
}

mem_more : (k j : String) (ks : List String) → mem k ks ≡ true → mem k (j ∷ ks) ≡ true
mem_more k j ks h = ground arith

mem_first : (k : String) (ks : List String) → mem k (k ∷ ks) ≡ true
mem_first k ks = ground (arith, eq_iff k k)

-- The step ran to success, or is a DNS record that the provider refused.
pub data IsAttempted (p : Plan) (s : Step) : Type 0 where
  succeeded : mem (owed_key s) p.ran ≡ true → IsAttempted p s
  refused : is_dns s.kind ≡ true → mem (describe s) p.failed_records ≡ true → IsAttempted p s

IsAttempted-later : {p q : Plan} (s : Step) → Grows p q → IsAttempted p s → IsAttempted q s
IsAttempted-later s g (succeeded h) = succeeded (g.ran (owed_key s) h)
IsAttempted-later s g (refused d h) = refused d (g.refused (describe s) h)

of_goes : Plan → Verdict → Plan
of_goes p (goes_on q) = q
of_goes p (stops _) = p

-- One step that went through.
record Went (s : Step) (p q : Plan) : Type 0 where
  grows : Grows p q
  attempted : IsAttempted q s

mark_ran-Went : (s : Step) (p : Plan) → Went s p (mark_ran s p)
unfolding mark_ran
mark_ran-Went s p = record {
  grows = record { ran = λ k h. mem_more k (owed_key s) p.ran h; refused = λ k h. h; owed = refl };
  attempted = succeeded (mem_first (owed_key s) p.ran);
}

mark_refused-Went :
    (s : Step) (e : String) (p : Plan) → is_dns s.kind ≡ true → Went s p (mark_refused s e p)
unfolding mark_refused
mark_refused-Went s e p d = record {
  grows = record {
    ran = λ k h. h;
    refused = λ k h. mem_more k (describe s) p.failed_records h;
    owed = refl;
  };
  attempted = refused d (mem_first (describe s) p.failed_records);
}

refused-Went :
    (s : Step) (e : String) (p q : Plan) (b : Bool)
    → is_dns s.kind ≡ b
    → (if b
        then goes_on (mark_refused s e p)
        else stops (record { phase = s.phase; step = describe s; cause = e; notes = [] }))
      ≡ goes_on q
    → Went s p q
unfolding of_goes
refused-Went s e p q true d h = subst (Went s p) (ap (of_goes p) h) (mark_refused-Went s e p d)
refused-Went s e p q false d h = cc

verdict-Went : (s : Step) (e : Option String) (p q : Plan) → verdict s e p ≡ goes_on q → Went s p q
unfolding verdict of_goes
verdict-Went s none p q h = subst (Went s p) (ap (of_goes p) h) (mark_ran-Went s p)
verdict-Went s (some e) p q h = refused-Went s e p q (is_dns s.kind) refl h

module _ {W : Type 0} (host : Host W) where
  commit_steps-Grows :
      (steps : List Step) (plan : Plan) (d : Writer) (w : W)
      (out : Option TurnError × Plan × Writer × W)
      → commit_steps host steps plan d w ≡ out
      → Grows plan out.1
  commit_steps-Grows [] plan d w out h =
      subst (λ (t : Option TurnError × Plan × Writer × W). Grows plan t.1)
        (sym (commit_nothing host plan d w) ∙ h) (Grows-refl plan)
  commit_steps-Grows (s ∷ ss) plan d w out h =
      elim (Verdict-cases (verdict s (run host s d w).0 plan)) [
        | inl (p, q) ↦ Grows-trans (verdict-Went s (run host s d w).0 plan p q).grows (
            commit_steps-Grows ss p (run host s d w).1 (run host s d w).2 out
              (sym (commit_goes host s ss plan p d w q) ∙ h))
        | inr (f, q) ↦
            subst (λ (t : Option TurnError × Plan × Writer × W). Grows plan t.1)
              (sym (commit_stops host s ss plan d w f q) ∙ h) (Grows-refl plan)
      ]

  commit_steps-IsAttempted :
      (steps : List Step) (plan : Plan) (d : Writer) (w : W)
      (out : Option TurnError × Plan × Writer × W)
      → commit_steps host steps plan d w ≡ out
      → out.0 ≡ none
      → All (IsAttempted out.1) steps
  commit_steps-IsAttempted [] plan d w out h f = tt
  commit_steps-IsAttempted (s ∷ ss) plan d w out h f =
      elim (Verdict-cases (verdict s (run host s d w).0 plan)) [
        | inl (p, q) ↦
            let h' = sym (commit_goes host s ss plan p d w q) ∙ h in
            (
              IsAttempted-later s (commit_steps-Grows ss p _ _ out h')
                  (verdict-Went s (run host s d w).0 plan p q).attempted,
              commit_steps-IsAttempted ss p (run host s d w).1 (run host s d w).2 out h' f,
            )
        | inr (e, q) ↦
            let k =
              ap (λ (t : Option TurnError × Plan × Writer × W). t.0)
                (sym (commit_stops host s ss plan d w e q) ∙ h)
              ∙ f in
            cc
      ]

  -- A commit that does not fail attempted every step of its plan: each of them is among the steps
  -- that ran, or is a DNS record that the provider refused and is among the failed records.
  pub commit-IsAttempted :
      (plan : Plan) (d : Writer) (w : W)
      → (commit host plan d w).0 ≡ none
      → All (IsAttempted (commit host plan d w).1) plan.steps
  unfolding commit
  commit-IsAttempted plan d w f = commit_steps-IsAttempted plan.steps plan d w _ refl f

-- The keys of the steps that are no DNS record.
abbrev pub host_keys : List Step → List String
host_keys [] = []
host_keys (s ∷ ss) = let rest = host_keys ss in if is_dns s.kind then rest else owed_key s ∷ rest

host_key_ran :
    (p : Plan) (s : Step) (b : Bool) (k : String) (ks : List String)
    → is_dns s.kind ≡ b
    → IsAttempted p s
    → (mem k ks ≡ true → mem k p.ran ≡ true)
    → mem k (if b then ks else owed_key s ∷ ks) ≡ true
    → mem k p.ran ≡ true
host_key_ran p s true k ks d a rest h = rest h
host_key_ran p s false k ks d (succeeded r) rest h = elim (Bool-cases (owed_key s =ˢ k)) [
  | inl same ↦ subst (λ x. mem x p.ran ≡ true) ((eq_iff (owed_key s) k).0 same) r
  | inr other ↦ rest (ground arith)
]
host_key_ran p s false k ks d (refused e r) rest h = cc

host_keys_ran :
    (p : Plan) (ss : List Step) (k : String)
    → All (IsAttempted p) ss
    → mem k (host_keys ss) ≡ true
    → mem k p.ran ≡ true
host_keys_ran p [] k a h = cc
host_keys_ran p (s ∷ ss) k a h =
    host_key_ran p s (is_dns s.kind) k (host_keys ss) refl a.0 (host_keys_ran p ss k a.1) h

not_ran_nil :
    (ran : List String) (os : List OwedStep)
    → All (λ o. mem (key_of o) ran ≡ true) os
    → not_ran ran os ≡ []
unfolding not_ran
not_ran_nil ran [] a = refl
not_ran_nil ran (o ∷ os) a = rw (a.0) (not_ran_nil ran os a.1)

All-map :
    {P Q : OwedStep → Type 0} (os : List OwedStep)
    → ((o : OwedStep) → P o → Q o)
    → All P os
    → All Q os
All-map [] f a = tt
All-map (o ∷ os) f a = (f o a.0, All-map os f a.1)

module _ {W : Type 0} (host : Host W) where
  -- A turn whose commit does not fail leaves nothing owed, if its owed steps are among its steps.
  pub left_owed-commit :
      (plan : Plan) (d : Writer) (w : W)
      → All (λ o. mem (key_of o) (host_keys plan.steps) ≡ true) plan.owed
      → (commit host plan d w).0 ≡ none
      → left_owed (commit host plan d w).1 ≡ []
  unfolding left_owed commit sort
  left_owed-commit plan d w own f =
      let p = (commit host plan d w).1 in
      let g : p.owed ≡ plan.owed = (commit_steps-Grows host plan.steps plan d w _ refl).owed in
      let done : All (λ o. mem (key_of o) p.ran ≡ true) plan.owed =
        All-map plan.owed
          (λ o h. host_keys_ran p plan.steps (key_of o) (commit-IsAttempted host plan d w f) h)
          own in
      ap (sort _) (ap (not_ran p.ran) g ∙ not_ran_nil p.ran plan.owed done)
