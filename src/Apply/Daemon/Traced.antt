-- ===== src/Apply/Daemon/Traced.antt =====
-- internal/apply/serve.go: the calls by which the loop has the engine accept a declaration, and what asks
-- for them.
use regied.Prelude.{String, Option, none, some, List, ◌∷◌, ◌≡◌, refl, All, All-map}
use regied.Apply.Daemon.Loop.{Engine, Declaration, Verb, submit, try_out, confirm, Request}
use regied.Apply.Daemon.Kept.{KeptByTurns}
use regied.Apply.Daemon.Steps.{Event, requested}

-- The calls of the engine that accept a declaration.
pub data Acceptance : Type 0 where
  submitted accepted : Declaration → Acceptance

-- The engine with a list of those calls beside its world, the last one first. It answers as the engine
-- does, and does to the world what it does.
unfoldable pub traced : {W : Type 0} → Engine W → Engine (W × List Acceptance)
traced engine = record {
  revision = engine.revision;
  load_record = λ w. engine.load_record w.0;
  reconcile = λ w. let (a, v) = engine.reconcile w.0 in (a, (v, w.1));
  reconcile_unattended = λ w. let (a, v) = engine.reconcile_unattended w.0 in (a, (v, w.1));
  reconcile_trial = λ d w. let (a, v) = engine.reconcile_trial d w.0 in (a, (v, w.1));
  submit_declaration =
      λ d w. let (a, v) = engine.submit_declaration d w.0 in (a, (v, submitted d ∷ w.1));
  submit_trial = λ d w. let (a, v) = engine.submit_trial d w.0 in (a, (v, w.1));
  accept_trial = λ d w. let (e, v) = engine.accept_trial d w.0 in (e, (v, accepted d ∷ w.1));
  report_trial = λ revision deadline w.
      let (e, v) = engine.report_trial revision deadline w.0 in (e, (v, w.1));
  clear_trial_report = λ w. let (e, v) = engine.clear_trial_report w.0 in (e, (v, w.1));
  last_turn = λ w. engine.last_turn w.0;
  notify = λ status w. let (e, v) = engine.notify status w.0 in (e, (v, w.1));
  now = λ w. let (t, v) = engine.now w.0 in (t, (v, w.1));
  log = λ line w. (engine.log line w.0, w.1);
  time_text = engine.time_text;
}

-- What an engine that is traced says of the list.
pub record IsTraced {W : Type 0} (engine : Engine W) (held : W → List Acceptance) : Type 0 where
  pub kept : (x : List Acceptance) → KeptByTurns engine (λ w. held w ≡ x)
  pub on_submitted :
      (d : Declaration) (w : W) → held (engine.submit_declaration d w).1 ≡ submitted d ∷ held w
  pub on_accepted :
      (d : Declaration) (w : W) → held (engine.accept_trial d w).1 ≡ accepted d ∷ held w

pub traced-IsTraced : {W : Type 0} (engine : Engine W) → IsTraced (traced engine) (λ w. w.1)
unfolding traced
traced-IsTraced engine = record {
  kept = λ x. record {
    reconciled = λ w h. h;
    unattended = λ w h. h;
    toward_trial = λ d w h. h;
    tried = λ d w h. h;
    reported = λ revision deadline w h. h;
    cleared = λ w h. h;
    notified = λ status w h. h;
    asked_time = λ w h. h;
    logged = λ line w h. h;
  };
  on_submitted = λ d w. refl;
  on_accepted = λ d w. refl;
}

-- A request of the verb with the declaration is among the events.
pub data Asked (v : Verb) (bytes : String) : List Event → Type 0 where
  now :
      {r : Request} {es : List Event}
      → r.verb ≡ v
      → r.declaration ≡ bytes
      → Asked v bytes (requested r ∷ es)
  before : {e : Event} {es : List Event} → Asked v bytes es → Asked v bytes (e ∷ es)

-- A confirmation was requested, of a trial of the declaration that was requested before it.
pub data Confirmed (bytes : String) : List Event → Type 0 where
  confirmed_now :
      {r : Request} {es : List Event}
      → r.verb ≡ confirm
      → Asked try_out bytes es
      → Confirmed bytes (requested r ∷ es)
  confirmed_before : {e : Event} {es : List Event} → Confirmed bytes es → Confirmed bytes (e ∷ es)

-- What the events say of a call: its declaration was submitted, or tried and then confirmed.
abbrev pub WasCalledFor : List Event → Acceptance → Type 0
WasCalledFor es (submitted d) = Asked submit d.bytes es
WasCalledFor es (accepted d) = Confirmed d.bytes es

still_called_for :
    (es : List Event) (e : Event) (c : Acceptance) → WasCalledFor es c → WasCalledFor (e ∷ es) c
still_called_for es e (submitted d) h = before h
still_called_for es e (accepted d) h = confirmed_before h

pub later :
    (cs : List Acceptance) (es : List Event) (e : Event)
    → All (WasCalledFor es) cs
    → All (WasCalledFor (e ∷ es)) cs
later cs es e h = All-map (still_called_for es e) cs h

-- The trial that the loop is at was requested.
abbrev pub WasAsked : List Event → Option Declaration → Type 0
WasAsked es none = Unit {0}
WasAsked es (some t) = Asked try_out t.bytes es

pub asked_later :
    (t : Option Declaration) (es : List Event) (e : Event) → WasAsked es t → WasAsked (e ∷ es) t
asked_later none es e h = tt
asked_later (some t) es e h = before h
