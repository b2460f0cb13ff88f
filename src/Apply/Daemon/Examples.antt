-- ===== src/Apply/Daemon/Examples.antt =====
-- A run of the loop over an engine in memory, which refuses one declaration.
use regied.Prelude.{
  All, String, true, Option, none, some, List, [], ◌∷◌, ◌≡◌, refl, ◌=ˢ◌, is_some, if◌then◌else◌,
}
use regied.Apply.Turn.{converged}
use regied.Apply.Daemon.Loop.{Engine, Answer, Verb, try_out, confirm, Request, starting}
use regied.Apply.Daemon.Turns.{run_turn}
use regied.Apply.Daemon.Requests.{handle}
use regied.Apply.Daemon.Steps.{
  Event, requested, resynced, Running, moved, replied, Ran, on_resync, on_request, began, then_on,
}
use regied.Apply.Daemon.Armed.{IsArmed, Ran-IsArmed}
use regied.Apply.Daemon.Traced.{Acceptance, accepted, traced, WasCalledFor}
use regied.Apply.Daemon.Recorded.{acceptance_origin}

-- the accepted declaration
abbrev Box : Type 0
Box = Option String

abbrev fine : String → Answer
fine revision = record {
  result = some (record { revision = revision; state = converged; waits = []; fails = [] });
  error = none;
}

abbrev refusal : Answer
refusal = record { result = none; error = some "invalid configuration" }

abbrev box_engine : Engine Box
box_engine = record {
  revision = λ bytes. bytes;
  load_record = λ w. w;
  reconcile = λ w. (fine "", w);
  reconcile_unattended = λ w. (fine "", w);
  reconcile_trial = λ d w. (fine d.bytes, w);
  submit_declaration =
      λ d w. if d.bytes =ˢ "bad" then (refusal, w) else (fine d.bytes, some d.bytes);
  submit_trial = λ d w. if d.bytes =ˢ "bad" then (refusal, w) else (fine d.bytes, w);
  accept_trial = λ d w. (none, some d.bytes);
  report_trial = λ revision deadline w. (none, w);
  clear_trial_report = λ w. (none, w);
  last_turn = λ w. none;
  notify = λ status w. (none, w);
  now = λ w. (1, w);
  log = λ line w. w;
  time_text = λ t. "";
}

abbrev asking : Verb → String → Request
asking v bytes = record { verb = v; declaration = bytes; source = ""; deadline = some 10 }

-- A process that starts where "old" is accepted, is asked for a trial, has it confirmed, and runs a
-- turn after it.
abbrev at_start : Running Box
at_start =
    moved (record { loop = starting true true; world = some "old"; sent = [] })
      (run_turn box_engine (starting true true) (some "old"))

abbrev on_request_of : Verb → String → Running Box → Running Box
on_request_of v bytes s = replied s (handle box_engine v (asking v bytes) s.loop s.world)

abbrev on_turn : Running Box → Running Box
on_turn s = moved s (run_turn box_engine s.loop s.world)

abbrev tried_out : Running Box
tried_out = on_request_of try_out "new" at_start

abbrev happened : List Event
happened = resynced ∷ requested (asking confirm "") ∷ requested (asking try_out "new") ∷ []

happened-Ran :
    Ran box_engine (some "old") true true happened (on_turn (on_request_of confirm "" tried_out))
unfolding run_turn handle
happened-Ran = then_on (then_on (then_on began (on_request refl)) (on_request refl)) on_resync

-- The trial leaves the record, and its confirmation writes it there.
tried_out_record : (tried_out.world ≡ some "old") × (is_some tried_out.loop.trial ≡ true)
unfolding run_turn handle
tried_out_record = (refl, refl)

confirmed_record : (on_request_of confirm "" tried_out).world ≡ some "new"
unfolding run_turn handle
confirmed_record = refl

-- A trial that was refused when it was submitted is a trial all the same, and can be confirmed.
refused_record :
    (on_request_of confirm "" (on_request_of try_out "bad" at_start)).world ≡ some "bad"
unfolding run_turn handle
refused_record = refl

Ran-IsArmed_example : IsArmed (on_turn (on_request_of confirm "" tried_out)).loop
Ran-IsArmed_example = Ran-IsArmed box_engine happened-Ran

-- The same run, traced.
abbrev traced_start : Running (Box × List Acceptance)
traced_start =
    moved (record { loop = starting true true; world = (some "old", []); sent = [] })
      (run_turn (traced box_engine) (starting true true) (some "old", []))

abbrev traced_request :
    Verb → String → Running (Box × List Acceptance) → Running (Box × List Acceptance)
traced_request v bytes s = replied s (handle (traced box_engine) v (asking v bytes) s.loop s.world)

abbrev traced_happened : List Event
traced_happened = requested (asking confirm "") ∷ requested (asking try_out "new") ∷ []

abbrev traced_confirmed : Running (Box × List Acceptance)
traced_confirmed = traced_request confirm "" (traced_request try_out "new" traced_start)

traced-Ran : Ran (traced box_engine) (some "old", []) true true traced_happened traced_confirmed
unfolding run_turn handle traced
traced-Ran = then_on (then_on began (on_request refl)) (on_request refl)

traced_calls :
    traced_confirmed.world ≡ (some "new", accepted (record { bytes = "new"; source = "" }) ∷ [])
unfolding run_turn handle traced
traced_calls = refl

acceptance_origin_example : All (WasCalledFor traced_happened) traced_confirmed.world.1
acceptance_origin_example = acceptance_origin box_engine traced-Ran
