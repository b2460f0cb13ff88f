-- ===== src/Apply/Daemon/Loop.antt =====
-- internal/apply/serve.go, the variables of the loop, and what passes between it, the engine and the
-- control socket. The engine is what the loop calls, over an arbitrary world: `Engine` has one function
-- for each of its methods in turn.go, beside the clock, the log and the service manager. A time is its
-- nanoseconds.
use regied.Prelude.{ℕ, String, Bool, Option, none, some, List, []}
use regied.Apply.Turn.{State, failing}

pub record Declaration : Type 0 where
  pub bytes : String
  pub source : String

-- Result, as far as the loop reads it: the lines of its plan are those it waits for and those that
-- fail
pub record TurnAnswer : Type 0 where
  pub revision : String
  pub state : State
  pub waits : List String
  pub fails : List String

-- what a turn returns: a result, an error or both
pub record Answer : Type 0 where
  pub result : Option TurnAnswer
  pub error : Option String

-- TurnReport; the rest of a report is handed on unread
pub record Report : Type 0 where
  pub revision : String
  pub state : State

pub record Engine (W : Type 0) : Type 0 where
  pub revision : String → String
  pub load_record : W → Option String
  pub reconcile : W → Answer × W
  pub reconcile_unattended : W → Answer × W
  pub reconcile_trial : Declaration → W → Answer × W
  pub submit_declaration : Declaration → W → Answer × W
  pub submit_trial : Declaration → W → Answer × W
  pub accept_trial : Declaration → W → Option String × W
  pub report_trial : String → ℕ → W → Option String × W
  pub clear_trial_report : W → Option String × W
  pub last_turn : W → Option Report
  pub notify : String → W → Option String × W
  pub now : W → ℕ × W
  pub log : String → W → W
  pub time_text : ℕ → String

pub data Verb : Type 0 where
  submit try_out confirm cancel : Verb

-- ControlRequest; the zero deadline is `none`
pub record Request : Type 0 where
  pub verb : Verb
  pub declaration : String
  pub source : String
  pub deadline : Option ℕ

-- ControlResponse; an empty state is `none`
pub record Response : Type 0 where
  pub revision : String
  pub state : Option State
  pub report : Option Report
  pub error : Option String

abbrev pub only_error : String → Response
only_error e = record { revision = ""; state = none; report = none; error = some e }

-- the variables of serve. `expiry` is how long its timer was set for, and `none` is the nil channel.
pub record Loop : Type 0 where
  pub previous_state : Option State
  pub previous_drift : List String
  pub trial : Option Declaration
  pub trial_base : String
  pub trial_deadline : ℕ
  pub expiry : Option ℕ
  pub events : Bool
  pub requests : Bool

abbrev pub starting : Bool → Bool → Loop
starting events requests = record {
  previous_state = none;
  previous_drift = [];
  trial = none;
  trial_base = "";
  trial_deadline = 0;
  expiry = none;
  events = events;
  requests = requests;
}

-- trial, expiry = nil, nil
abbrev pub without_trial : Loop → Loop
without_trial l = record l { trial = none; expiry = none }

abbrev pub or_error : Option String → Option String → Option String
or_error none e = e
or_error (some e) _ = some e

-- the state and the drift that an answer leaves
abbrev pub state_in : Option TurnAnswer → State
state_in none = failing
state_in (some r) = r.state
