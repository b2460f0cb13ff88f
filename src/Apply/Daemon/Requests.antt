-- ===== src/Apply/Daemon/Requests.antt =====
-- internal/apply/serve.go, the verbs of the control socket, and the end of a trial.
use regied.Prelude.{ℕ, ◌-◌, String, Option, none, some, ◌=ˢ◌, ◌⋅◌, if◌then◌else◌}
use regied.Apply.Turn.{State, failing}
use regied.Apply.Daemon.Loop.{
  Declaration, TurnAnswer, Answer, Report, Engine, Verb, Request, Response, only_error, Loop,
  without_trial, or_error, state_in, submit, try_out, confirm, cancel,
}

module _ {W : Type 0} (engine : Engine W) where
  abbrev pub report_of : String → Option Report → Option Report
  report_of revision none = none
  report_of revision (some r) = if r.revision =ˢ revision then some r else none

  abbrev pub answered : Option TurnAnswer → Response
  answered none = record { revision = ""; state = none; report = none; error = none }
  answered (some r) = record {
    revision = r.revision;
    state = some r.state;
    report = none;
    error = none;
  }

  -- responseFor
  unfoldable pub response_for : String → Answer → W → Response
  response_for revision a w = record (answered a.result) {
    report = report_of revision (engine.last_turn w);
    error = a.error;
  }

  abbrev pub candidate : Request → Declaration
  candidate r = record { bytes = r.declaration; source = r.source }

  -- ControlSubmit
  unfoldable pub on_submit : Request → Loop → W → Response × Loop × W
  unfolding response_for
  on_submit r l w =
      let (a, w') = engine.submit_declaration (candidate r) w in
      (response_for (engine.revision r.declaration) a w', without_trial l, w')

  abbrev pub base_of : Option String → String
  base_of none = ""
  base_of (some revision) = revision

  -- ControlTrial, with a deadline
  unfoldable pub start_trial : Request → ℕ → Loop → W → Response × Loop × W
  unfolding response_for
  start_trial r deadline l w =
      let (now, w1) = engine.now w in
      let (a, w2) = engine.submit_trial (candidate r) w1 in
      let revision = engine.revision r.declaration in
      let (e, w3) = engine.report_trial revision deadline w2 in
      let w4 =
        engine.log
          ("trial started: revision=" ⋅ revision ⋅ " deadline=" ⋅ engine.time_text deadline) w3 in
      (
        record (response_for revision (record a { error = or_error a.error e }) w4) {
          state = some (state_in a.result);
        },
        record l {
          trial = some (candidate r);
          trial_base = base_of (engine.load_record w);
          trial_deadline = deadline;
          expiry = some (deadline - now);
        },
        w4,
      )

  unfoldable pub trial_until : Option ℕ → Request → Loop → W → Response × Loop × W
  unfolding start_trial
  trial_until none r l w = (only_error "a trial deadline is required", l, w)
  trial_until (some deadline) r l w = start_trial r deadline l w

  unfoldable pub on_trial : Request → Loop → W → Response × Loop × W
  unfolding trial_until
  on_trial r l w = trial_until r.deadline r l w

  abbrev pub reported_state : Option Report → State
  reported_state none = failing
  reported_state (some r) = r.state

  unfoldable pub log_uncleared : Option String → W → W
  log_uncleared none w = w
  log_uncleared (some e) w = engine.log ("confirmed trial report update failed: " ⋅ e) w

  -- the rest of ControlConfirm, by what AcceptTrial returned
  unfoldable pub confirmed :
      Declaration → Option Report → Option String → Loop → W → Response × Loop × W
  unfolding log_uncleared
  confirmed t report (some e) l w = (only_error e, l, w)
  confirmed t report none l w =
      let (e, w') = engine.clear_trial_report w in
      let revision = engine.revision t.bytes in
      (
        record {
          revision = revision;
          state = some (reported_state report);
          report = report;
          error = none;
        },
        without_trial l,
        engine.log ("trial confirmed: revision=" ⋅ revision) (log_uncleared e w'),
      )

  unfoldable pub confirm_trial : Option Declaration → Loop → W → Response × Loop × W
  unfolding confirmed
  confirm_trial none l w = (only_error "there is no trial to confirm", l, w)
  confirm_trial (some t) l w =
      let (e, w') = engine.accept_trial t w in confirmed t (engine.last_turn w) e l w'

  -- ControlConfirm
  unfoldable pub on_confirm : Loop → W → Response × Loop × W
  unfolding confirm_trial
  on_confirm l w = confirm_trial l.trial l w

  -- revertTrial
  unfoldable pub revert_trial : String → Loop → W → Answer × Loop × W
  revert_trial reason l w =
      let (a, w') = engine.reconcile (engine.log ("trial " ⋅ reason) w) in (a, without_trial l, w')

  abbrev pub revision_in : Option TurnAnswer → String
  revision_in none = ""
  revision_in (some r) = r.revision

  unfoldable pub cancel_trial : Option Declaration → Loop → W → Response × Loop × W
  unfolding revert_trial response_for
  cancel_trial none l w = (only_error "there is no trial to cancel", l, w)
  cancel_trial (some t) l w =
      let (a, l', w') = revert_trial "cancelled" l w in
      (response_for (revision_in a.result) a w', l', w')

  -- ControlCancel
  unfoldable pub on_cancel : Loop → W → Response × Loop × W
  unfolding cancel_trial
  on_cancel l w = cancel_trial l.trial l w

  -- the switch over the verbs
  unfoldable pub handle : Verb → Request → Loop → W → Response × Loop × W
  unfolding on_submit on_trial on_confirm on_cancel
  handle submit r l w = on_submit r l w
  handle try_out r l w = on_trial r l w
  handle confirm r l w = on_confirm l w
  handle cancel r l w = on_cancel l w
