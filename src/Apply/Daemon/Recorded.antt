-- ===== src/Apply/Daemon/Recorded.antt =====
-- internal/apply/serve.go: what the loop has the engine accept.
use mathlib.Core.Path.{subst}
use regied.Prelude.{
  ℕ, String, Bool, Option, none, some, List, [], ◌∷◌, ◌≡◌, refl, sym, if-cases, ◌=ˢ◌, All,
}
use regied.Apply.Daemon.Loop.{
  Engine, Declaration, Report, Verb, submit, try_out, confirm, cancel, Request, Loop, starting,
}
use regied.Apply.Daemon.Turns.{superseded, ended, observe, run_turn}
use regied.Apply.Daemon.Requests.{
  trial_until, start_trial, confirmed, confirm_trial, cancel_trial, on_trial, on_confirm, on_cancel,
  on_submit, handle, revert_trial, candidate,
}
use regied.Apply.Daemon.Kept.{
  run_turn-Kept, trial_until-Kept, confirmed-Kept, revert_trial-Kept, cancel_trial-Kept,
}
use regied.Apply.Daemon.Steps.{
  Event, requested, Running, Round, Ran, on_resync, on_event, on_events_closed, on_requests_closed,
  on_request, on_expiry, began, then_on,
}
use regied.Apply.Daemon.Traced.{
  Acceptance, traced, IsTraced, traced-IsTraced, now, confirmed_now, WasCalledFor, later, WasAsked,
  asked_later,
}

module _ {W : Type 0} (engine : Engine W) (held : W → List Acceptance)
    (laws : IsTraced engine held) where
  -- What holds of the variables and the world after the events.
  abbrev Holds : List Event → Loop → W → Type 0
  Holds es l w = WasAsked es l.trial × All (WasCalledFor es) (held w)

  still :
      (es : List Event) (w w' : W) {cs : List Acceptance}
      → held w' ≡ cs
      → All (WasCalledFor es) cs
      → All (WasCalledFor es) (held w')
  still es w w' same h = subst (All (WasCalledFor es)) (sym same) h

  superseded-WasAsked :
      (record_now : Option String) (es : List Event) (l : Loop) (w : W)
      → WasAsked es l.trial
      → WasAsked es (superseded engine record_now l w).0.trial
  unfolding superseded
  superseded-WasAsked none es l w h = h
  superseded-WasAsked (some r) es l w h =
      if-cases {A = Loop × W} (λ p. WasAsked es p.0.trial) (r =ˢ l.trial_base) _ _ (λ t. h)
        (λ f. tt)

  ended-WasAsked :
      (t : Option Declaration) (es : List Event) (l : Loop) (w : W)
      → WasAsked es l.trial
      → WasAsked es (ended engine t l w).0.trial
  unfolding ended
  ended-WasAsked none es l w h = h
  ended-WasAsked (some t) es l w h = superseded-WasAsked (engine.load_record w) es l w h

  run_turn-Holds :
      (es : List Event) (l : Loop) (w : W)
      → Holds es l w
      → Holds es (run_turn engine l w).0 (run_turn engine l w).1
  unfolding run_turn observe
  run_turn-Holds es l w h = (
    ended-WasAsked l.trial es l w h.0,
    still es w _ (run_turn-Kept engine _ (laws.kept (held w)) l w refl) h.1,
  )

  trial-Holds :
      (deadline : Option ℕ) (r : Request) (es : List Event) (l : Loop) (w : W)
      → r.verb ≡ try_out
      → Holds es l w
      → Holds
          (requested r ∷ es)
          (trial_until engine deadline r l w).1
          (trial_until engine deadline r l w).2
  unfolding trial_until start_trial
  trial-Holds none r es l w v h = (asked_later l.trial es _ h.0, later _ es _ h.1)
  trial-Holds (some deadline) r es l w v h = (
    now v refl,
    later _ es _ (
        still es w _ (trial_until-Kept engine _ (laws.kept (held w)) (some deadline) r l w refl)
          h.1),
  )

  submit-Holds :
      (r : Request) (es : List Event) (l : Loop) (w : W)
      → r.verb ≡ submit
      → Holds es l w
      → Holds (requested r ∷ es) (on_submit engine r l w).1 (on_submit engine r l w).2
  unfolding on_submit
  submit-Holds r es l w v h =
      (tt, still _ w _ (laws.on_submitted (candidate engine r) w) (now v refl, later _ es _ h.1))

  confirmed-Holds :
      (t : Declaration) (report : Option Report) (e : Option String) (es : List Event) (l : Loop)
      (w : W)
      → Holds es l w
      → Holds es (confirmed engine t report e l w).1 (confirmed engine t report e l w).2
  unfolding confirmed
  confirmed-Holds t report none es l w h =
      (tt, still es w _ (confirmed-Kept engine _ (laws.kept (held w)) t report none l w refl) h.1)
  confirmed-Holds t report (some e) es l w h = h

  confirm-Holds :
      (t : Option Declaration) (r : Request) (es : List Event) (l : Loop) (w : W)
      → r.verb ≡ confirm
      → WasAsked es t
      → Holds es l w
      → Holds (requested r ∷ es) (confirm_trial engine t l w).1 (confirm_trial engine t l w).2
  unfolding confirm_trial
  confirm-Holds none r es l w v asked h = (asked_later l.trial es _ h.0, later _ es _ h.1)
  confirm-Holds (some t) r es l w v asked h =
      let w' = (engine.accept_trial t w).1 in
      confirmed-Holds t (engine.last_turn w) (engine.accept_trial t w).0 (requested r ∷ es) l w' (
        asked_later l.trial es _ h.0,
        still _ w w' (laws.on_accepted t w) (confirmed_now v asked, later _ es _ h.1),
      )

  cancel-Holds :
      (t : Option Declaration) (r : Request) (es : List Event) (l : Loop) (w : W)
      → Holds es l w
      → Holds (requested r ∷ es) (cancel_trial engine t l w).1 (cancel_trial engine t l w).2
  unfolding cancel_trial revert_trial
  cancel-Holds none r es l w h = (asked_later l.trial es _ h.0, later _ es _ h.1)
  cancel-Holds (some t) r es l w h = (
    tt,
    later _ es _
        (still es w _ (cancel_trial-Kept engine _ (laws.kept (held w)) (some t) l w refl) h.1),
  )

  handle-Holds :
      (v : Verb) (r : Request) (es : List Event) (l : Loop) (w : W)
      → r.verb ≡ v
      → Holds es l w
      → Holds (requested r ∷ es) (handle engine v r l w).1 (handle engine v r l w).2
  unfolding handle on_trial on_confirm on_cancel
  handle-Holds submit r es l w v h = submit-Holds r es l w v h
  handle-Holds try_out r es l w v h = trial-Holds r.deadline r es l w v h
  handle-Holds confirm r es l w v h = confirm-Holds l.trial r es l w v h.0 h
  handle-Holds cancel r es l w v h = cancel-Holds l.trial r es l w h

  onward : (es : List Event) (e : Event) (l : Loop) (w : W) → Holds es l w → Holds (e ∷ es) l w
  onward es e l w h = (asked_later l.trial es _ h.0, later _ es _ h.1)

  run_onward :
      (es : List Event) (e : Event) (l : Loop) (w : W)
      → Holds es l w
      → Holds (e ∷ es) (run_turn engine l w).0 (run_turn engine l w).1
  run_onward es e l w h =
      let (l', w') = run_turn engine l w in onward es e l' w' (run_turn-Holds es l w h)

  Round-Holds :
      {s t : Running W} {e : Event} (es : List Event)
      → Round engine s e t
      → Holds es s.loop s.world
      → Holds (e ∷ es) t.loop t.world
  unfolding revert_trial
  Round-Holds {s} es on_resync h = run_onward es _ s.loop s.world h
  Round-Holds {s} es (on_event there) h = run_onward es _ s.loop s.world h
  Round-Holds {s} es (on_events_closed there) h = onward es _ s.loop s.world h
  Round-Holds {s} es (on_requests_closed there) h = onward es _ s.loop s.world h
  Round-Holds {s} es (on_request {r = r} there) h = handle-Holds r.verb r es s.loop s.world refl h
  Round-Holds {s} es (on_expiry armed) h = (
    tt,
    later _ es _ (
        still es s.world _
          (revert_trial-Kept engine _ (laws.kept (held s.world)) "expired" s.loop s.world refl)
          h.1),
  )

  Ran-Holds :
      {w : W} {events requests : Bool} {es : List Event} {s : Running W}
      → held w ≡ []
      → Ran engine w events requests es s
      → Holds es s.loop s.world
  Ran-Holds {w} {events} {requests} first began =
      run_turn-Holds [] (starting events requests) w
        (tt, subst (All (WasCalledFor [])) (sym first) tt)
  Ran-Holds first (then_on {es} before_it round) = Round-Holds es round (Ran-Holds first before_it)

-- At every time of a run of the process, whatever the engine does and answers, each call so far that
-- accepts a declaration was asked for by then: one that submits a declaration, by a request to submit
-- that declaration, and one that accepts a trial, by a request to confirm, before which that
-- declaration was requested as a trial.
pub acceptance_origin :
    {W : Type 0} (engine : Engine W) {w : W} {events requests : Bool} {es : List Event}
    {s : Running (W × List Acceptance)}
    → Ran (traced engine) (w, []) events requests es s
    → All (WasCalledFor es) s.world.1
acceptance_origin engine ran =
    (Ran-Holds (traced engine) (λ w. w.1) (traced-IsTraced engine) refl ran).1
