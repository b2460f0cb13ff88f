-- ===== src/Apply/Daemon/Turns.antt =====
-- internal/apply/serve.go, the closure `run`: a turn that nobody asked for, and what is told of it.
use regied.Prelude.{
  ℕ, String, Bool, false, not, Option, none, some, List, [], ◌∷◌, ◌++◌, ◌=ˢ◌, ◌⋅◌, mem,
  if◌then◌else◌,
}
use regied.Apply.Turn.{State, converged, waiting, failing}
use regied.Apply.Daemon.Loop.{
  Declaration, TurnAnswer, Answer, Engine, Loop, without_trial, or_error, state_in,
}

unfoldable pub state_text : State → String
state_text converged = "converged"
state_text waiting = "waiting"
state_text failing = "failing"

unfoldable pub same_state : Option State → State → Bool
unfolding state_text
same_state none s = false
same_state (some t) s = state_text t =ˢ state_text s

abbrev pub lines_in : Option TurnAnswer → List String
lines_in none = []
lines_in (some r) = r.waits ++ r.fails

abbrev pub error_line : Option String → List String
error_line none = []
error_line (some e) = e ∷ []

-- the keys of `current`
unfoldable pub distinct_lines : List String → List String → List String
distinct_lines seen [] = seen
distinct_lines seen (x ∷ xs) =
    let known = distinct_lines seen xs in
    let new = distinct_lines (seen ++ x ∷ []) xs in if mem x seen then known else new

unfoldable pub list_text : List String → String
list_text [] = ""
list_text (x ∷ xs) = "; " ⋅ x ⋅ list_text xs

unfoldable pub status_text : State → List String → String
unfolding state_text
status_text s [] = state_text s
status_text s (x ∷ _) = state_text s ⋅ ": " ⋅ x

module _ {W : Type 0} (engine : Engine W) where
  unfoldable pub log_where : (String → Bool) → String → List String → W → W
  log_where test head [] w = w
  log_where test head (x ∷ xs) w =
      let w' = if test x then engine.log (head ⋅ x) w else w in log_where test head xs w'

  -- the drift that appeared and that is gone, in the order of the lists, where the second is a map in
  -- Go
  unfoldable pub log_drift : List String → List String → W → W
  unfolding log_where
  log_drift previous drift w =
      log_where (λ x. not (mem x drift)) "drift cleared: " previous
        (log_where (λ x. not (mem x previous)) "drift appeared: " drift w)

  -- the state, if it changed
  unfoldable pub log_state : Option State → State → List String → W → W
  unfolding same_state list_text state_text
  log_state previous s drift w =
      if same_state previous s
      then w
      else engine.log ("state changed: " ⋅ state_text s ⋅ list_text drift) w

  unfoldable pub log_failure : Option String → W → W
  log_failure none w = w
  log_failure (some e) w = engine.log ("systemd status update failed: " ⋅ e) w

  -- the second half of run
  unfoldable pub observe : Loop → Answer → W → Loop × W
  unfolding log_drift log_state log_failure status_text distinct_lines
  observe l a w =
      let s = state_in a.result in
      let drift = lines_in a.result ++ error_line a.error in
      let (e, w') =
        engine.notify (status_text s drift)
          (log_state l.previous_state s drift (log_drift l.previous_drift drift w)) in
      (
        record l { previous_state = some s; previous_drift = distinct_lines [] drift },
        log_failure e w',
      )

  unfoldable pub superseded : Option String → Loop → W → Loop × W
  superseded none l w = (l, w)
  superseded (some held) l w =
      if held =ˢ l.trial_base
      then (l, w)
      else (without_trial l, engine.log "trial ended by a plain apply" w)

  -- a trial ends when the record is not the one that it began on
  unfoldable pub ended : Option Declaration → Loop → W → Loop × W
  unfolding superseded
  ended none l w = (l, w)
  ended (some t) l w = superseded (engine.load_record w) l w

  -- the turn: toward the trial if there is one, else toward the record
  unfoldable pub turn_toward : Option Declaration → ℕ → W → Answer × W
  turn_toward none deadline w = engine.reconcile_unattended w
  turn_toward (some t) deadline w =
      let (a, w1) = engine.reconcile_trial t w in
      let (e, w2) = engine.report_trial (engine.revision t.bytes) deadline w1 in
      (record a { error = or_error a.error e }, w2)

  -- run
  unfoldable pub run_turn : Loop → W → Loop × W
  unfolding ended turn_toward observe
  run_turn l w =
      let (l1, w1) = ended l.trial l w in
      let (a, w2) = turn_toward l1.trial l1.trial_deadline w1 in observe l1 a w2
