-- ===== src/Apply/Daemon/Kept.antt =====
-- internal/apply/serve.go: what the loop leaves alone but for what it is asked to accept.
use regied.Prelude.{ℕ, String, Bool, Option, none, some, List, [], ◌∷◌, if-cases, not, mem, ◌=ˢ◌}
use regied.Apply.Turn.{State}
use regied.Apply.Daemon.Loop.{Engine, Declaration, Report, Request, Loop, Answer}
use regied.Apply.Daemon.Turns.{
  superseded, ended, turn_toward, log_where, log_drift, log_state, same_state, state_text,
  log_failure, observe, run_turn,
}
use regied.Apply.Daemon.Requests.{
  trial_until, start_trial, log_uncleared, confirmed, cancel_trial, revert_trial,
}

-- A property of the world that all the engine's methods keep but SubmitDeclaration and AcceptTrial: a
-- turn toward the record or toward a trial, a report, the log, the clock and the service manager.
pub record KeptByTurns {W : Type 0} (engine : Engine W) (P : W → Type 0) : Type 0 where
  pub reconciled : (w : W) → P w → P (engine.reconcile w).1
  pub unattended : (w : W) → P w → P (engine.reconcile_unattended w).1
  pub toward_trial : (d : Declaration) (w : W) → P w → P (engine.reconcile_trial d w).1
  pub tried : (d : Declaration) (w : W) → P w → P (engine.submit_trial d w).1
  pub reported :
      (revision : String) (deadline : ℕ) (w : W)
      → P w
      → P (engine.report_trial revision deadline w).1
  pub cleared : (w : W) → P w → P (engine.clear_trial_report w).1
  pub notified : (status : String) (w : W) → P w → P (engine.notify status w).1
  pub asked_time : (w : W) → P w → P (engine.now w).1
  pub logged : (line : String) (w : W) → P w → P (engine.log line w)

module _ {W : Type 0} (engine : Engine W) (P : W → Type 0) (keeps : KeptByTurns engine P) where
  log_where-Kept :
      (test : String → Bool) (head : String) (xs : List String) (w : W)
      → P w
      → P (log_where engine test head xs w)
  unfolding log_where
  log_where-Kept test head [] w h = h
  log_where-Kept test head (x ∷ xs) w h =
      log_where-Kept test head xs _ (if-cases P (test x) _ w (λ t. keeps.logged _ w h) (λ f. h))

  log_drift-Kept :
      (previous drift : List String) (w : W) → P w → P (log_drift engine previous drift w)
  unfolding log_drift
  log_drift-Kept previous drift w h =
      log_where-Kept (λ x. not (mem x drift)) "drift cleared: " previous _
        (log_where-Kept (λ x. not (mem x previous)) "drift appeared: " drift w h)

  log_state-Kept :
      (previous : Option State) (s : State) (drift : List String) (w : W)
      → P w
      → P (log_state engine previous s drift w)
  unfolding log_state same_state
  log_state-Kept none s drift w h = keeps.logged _ w h
  log_state-Kept (some previous) s drift w h =
      if-cases P (state_text previous =ˢ state_text s) w _ (λ t. h) (λ f. keeps.logged _ w h)

  log_failure-Kept : (e : Option String) (w : W) → P w → P (log_failure engine e w)
  unfolding log_failure
  log_failure-Kept none w h = h
  log_failure-Kept (some e) w h = keeps.logged _ w h

  observe-Kept : (l : Loop) (a : Answer) (w : W) → P w → P (observe engine l a w).1
  unfolding observe
  observe-Kept l a w h = log_failure-Kept _ _ (
      keeps.notified _ _
        (log_state-Kept l.previous_state _ _ _ (log_drift-Kept l.previous_drift _ w h)))

  superseded-Kept :
      (held : Option String) (l : Loop) (w : W) → P w → P (superseded engine held l w).1
  unfolding superseded
  superseded-Kept none l w h = h
  superseded-Kept (some held) l w h =
      if-cases {A = Loop × W} (λ p. P p.1) (held =ˢ l.trial_base) _ _ (λ t. h)
        (λ f. keeps.logged _ w h)

  ended-Kept : (t : Option Declaration) (l : Loop) (w : W) → P w → P (ended engine t l w).1
  unfolding ended
  ended-Kept none l w h = h
  ended-Kept (some t) l w h = superseded-Kept (engine.load_record w) l w h

  turn_toward-Kept :
      (t : Option Declaration) (deadline : ℕ) (w : W) → P w → P (turn_toward engine t deadline w).1
  unfolding turn_toward
  turn_toward-Kept none deadline w h = keeps.unattended w h
  turn_toward-Kept (some t) deadline w h = keeps.reported _ _ _ (keeps.toward_trial t w h)

  pub run_turn-Kept : (l : Loop) (w : W) → P w → P (run_turn engine l w).1
  unfolding run_turn
  run_turn-Kept l w h =
      let (l1, w1) = ended engine l.trial l w in
      observe-Kept l1 (turn_toward engine l1.trial l1.trial_deadline w1).0 _
        (turn_toward-Kept l1.trial l1.trial_deadline w1 (ended-Kept l.trial l w h))

  pub trial_until-Kept :
      (deadline : Option ℕ) (r : Request) (l : Loop) (w : W)
      → P w
      → P (trial_until engine deadline r l w).2
  unfolding trial_until start_trial
  trial_until-Kept none r l w h = h
  trial_until-Kept (some deadline) r l w h =
      keeps.logged _ _ (keeps.reported _ _ _ (keeps.tried _ _ (keeps.asked_time w h)))

  log_uncleared-Kept : (e : Option String) (w : W) → P w → P (log_uncleared engine e w)
  unfolding log_uncleared
  log_uncleared-Kept none w h = h
  log_uncleared-Kept (some e) w h = keeps.logged _ w h

  pub confirmed-Kept :
      (t : Declaration) (report : Option Report) (e : Option String) (l : Loop) (w : W)
      → P w
      → P (confirmed engine t report e l w).2
  unfolding confirmed
  confirmed-Kept t report none l w h = keeps.logged _ _ (log_uncleared-Kept _ _ (keeps.cleared w h))
  confirmed-Kept t report (some e) l w h = h

  pub revert_trial-Kept :
      (reason : String) (l : Loop) (w : W) → P w → P (revert_trial engine reason l w).2
  unfolding revert_trial
  revert_trial-Kept reason l w h = keeps.reconciled _ (keeps.logged _ w h)

  pub cancel_trial-Kept :
      (t : Option Declaration) (l : Loop) (w : W) → P w → P (cancel_trial engine t l w).2
  unfolding cancel_trial
  cancel_trial-Kept none l w h = h
  cancel_trial-Kept (some t) l w h = revert_trial-Kept "cancelled" l w h
