-- ===== src/Apply/Daemon/Armed.antt =====
-- internal/apply/serve.go: a trial and the timer that ends it.
use regied.Prelude.{ℕ, String, Bool, Option, none, some, List, ◌≡◌, refl, is_some, if-cases, ◌=ˢ◌}
use regied.Apply.Daemon.Loop.{
  Engine, Declaration, Report, Verb, submit, try_out, confirm, cancel, Request, Loop, starting,
}
use regied.Apply.Daemon.Turns.{superseded, ended, observe, run_turn}
use regied.Apply.Daemon.Requests.{
  trial_until, start_trial, confirmed, confirm_trial, cancel_trial, on_trial, on_confirm, on_cancel,
  on_submit, handle, revert_trial,
}
use regied.Apply.Daemon.Steps.{
  Event, Running, Round, Ran, on_resync, on_event, on_events_closed, on_requests_closed, on_request,
  on_expiry, began, then_on,
}

-- There is a trial exactly if there is a timer.
abbrev pub IsArmed : Loop → Type 0
IsArmed l = is_some l.trial ≡ is_some l.expiry

module _ {W : Type 0} (engine : Engine W) where
  superseded-IsArmed :
      (held : Option String) (l : Loop) (w : W) → IsArmed l → IsArmed (superseded engine held l w).0
  unfolding superseded
  superseded-IsArmed none l w h = h
  superseded-IsArmed (some held) l w h =
      if-cases {A = Loop × W} (λ p. IsArmed p.0) (held =ˢ l.trial_base) _ _ (λ t. h) (λ f. refl)

  ended-IsArmed :
      (t : Option Declaration) (l : Loop) (w : W) → IsArmed l → IsArmed (ended engine t l w).0
  unfolding ended
  ended-IsArmed none l w h = h
  ended-IsArmed (some t) l w h = superseded-IsArmed (engine.load_record w) l w h

  run_turn-IsArmed : (l : Loop) (w : W) → IsArmed l → IsArmed (run_turn engine l w).0
  unfolding run_turn observe
  run_turn-IsArmed l w h = ended-IsArmed l.trial l w h

  trial_until-IsArmed :
      (deadline : Option ℕ) (r : Request) (l : Loop) (w : W)
      → IsArmed l
      → IsArmed (trial_until engine deadline r l w).1
  unfolding trial_until start_trial
  trial_until-IsArmed none r l w h = h
  trial_until-IsArmed (some deadline) r l w h = refl

  confirmed-IsArmed :
      (t : Declaration) (report : Option Report) (e : Option String) (l : Loop) (w : W)
      → IsArmed l
      → IsArmed (confirmed engine t report e l w).1
  unfolding confirmed
  confirmed-IsArmed t report none l w h = refl
  confirmed-IsArmed t report (some e) l w h = h

  confirm_trial-IsArmed :
      (t : Option Declaration) (l : Loop) (w : W)
      → IsArmed l
      → IsArmed (confirm_trial engine t l w).1
  unfolding confirm_trial
  confirm_trial-IsArmed none l w h = h
  confirm_trial-IsArmed (some t) l w h =
      confirmed-IsArmed t (engine.last_turn w) (engine.accept_trial t w).0 l
        (engine.accept_trial t w).1 h

  cancel_trial-IsArmed :
      (t : Option Declaration) (l : Loop) (w : W)
      → IsArmed l
      → IsArmed (cancel_trial engine t l w).1
  unfolding cancel_trial revert_trial
  cancel_trial-IsArmed none l w h = h
  cancel_trial-IsArmed (some t) l w h = refl

  handle-IsArmed :
      (v : Verb) (r : Request) (l : Loop) (w : W) → IsArmed l → IsArmed (handle engine v r l w).1
  unfolding handle on_submit on_trial on_confirm on_cancel
  handle-IsArmed submit r l w h = refl
  handle-IsArmed try_out r l w h = trial_until-IsArmed r.deadline r l w h
  handle-IsArmed confirm r l w h = confirm_trial-IsArmed l.trial l w h
  handle-IsArmed cancel r l w h = cancel_trial-IsArmed l.trial l w h

  Round-IsArmed :
      {s t : Running W} {e : Event} → Round engine s e t → IsArmed s.loop → IsArmed t.loop
  unfolding revert_trial
  Round-IsArmed {s} on_resync h = run_turn-IsArmed s.loop s.world h
  Round-IsArmed {s} (on_event there) h = run_turn-IsArmed s.loop s.world h
  Round-IsArmed (on_events_closed there) h = h
  Round-IsArmed (on_requests_closed there) h = h
  Round-IsArmed {s} (on_request {r = r} there) h = handle-IsArmed r.verb r s.loop s.world h
  Round-IsArmed (on_expiry armed) h = refl

  -- At every time of a run of the process, whatever was requested and whatever the engine answered,
  -- there is a trial exactly if a timer is set.
  pub Ran-IsArmed :
      {w : W} {events requests : Bool} {es : List Event} {s : Running W}
      → Ran engine w events requests es s
      → IsArmed s.loop
  Ran-IsArmed {w} {events} {requests} began = run_turn-IsArmed (starting events requests) w refl
  Ran-IsArmed (then_on before round) = Round-IsArmed round (Ran-IsArmed before)
