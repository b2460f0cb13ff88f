-- ===== src/Apply/Turn.antt =====
-- One turn over a plan: internal/apply/apply.go from `turn` on, with the parts of turn.go and plan.go
-- that it uses. The plan that Go changes in place is handed on with the result.
pub mod Accepted
pub mod Refused
pub mod Converged
use regied.Prelude.{
  String, Bool, true, false, ◌||◌, not, Option, none, some, List, [], ◌∷◌, ◌++◌, ◌=ˢ◌, ◌⋅◌,
  if◌then◌else◌, path_dir,
}
use regied.Ddns.{Writer}
use regied.Apply.Types.{
  Phase, staging, unchanged, FileChange, SwitchChange, Step, FirewallChange, Plan, kind_eq,
}
use regied.Apply.Services.{Options}
use regied.Apply.Host.{FileAnswer, found, missing, unreadable, Host}
use regied.Apply.Owed.{Codec}
use regied.Apply.Settling.{settle_owed}
use regied.Apply.Staging.{wrap, attempt, stage}
use regied.Apply.Commit.{TurnError, commit}

pub data State : Type 0 where
  converged waiting failing : State

pub data Outcome : Type 0 where
  nothing_run stopped as_before applied : Outcome

pub record TurnResult : Type 0 where
  pub changed : Bool
  pub notes : List String
  pub state : State

-- what a turn returns: a *Result or an *Error
pub data Turned : Type 0 where
  done : TurnResult → Turned
  failed : TurnError → Turned

any_change : List FileChange → Bool
any_change [] = false
any_change (f ∷ fs) =
    let rest = any_change fs in if not (kind_eq f.kind unchanged) then true else rest

any_switch : List SwitchChange → Bool
any_switch [] = false
any_switch (c ∷ cs) = let rest = any_switch cs in if c.changed then true else rest

any_step : List Step → Bool
any_step [] = false
any_step (s ∷ ss) = true

-- Empty, of a plan
unfoldable pub is_empty : Plan → Bool
unfolding any_change any_switch any_step
is_empty plan = not (
    plan.firewall.apply
    || (any_step plan.steps || (any_change plan.files || any_switch plan.switches)))

abbrev any_line : List String → Bool
any_line [] = false
any_line (_ ∷ _) = true

-- stateOf; a plan is always at hand where the turn asks
unfoldable pub state_of : Plan → Option TurnError → State
state_of plan (some failure) = failing
state_of plan none =
    if any_line plan.failing then failing else if any_line plan.waiting then waiting else converged

is_staging : Phase → Bool
is_staging staging = true
is_staging _ = false

-- outcomeOf, of a failure that is an *Error
unfoldable pub outcome_of : Plan → Option TurnError → Outcome
unfolding is_empty is_staging
outcome_of plan (some failure) = if is_staging failure.phase then nothing_run else stopped
outcome_of plan none = if is_empty plan then as_before else applied

-- stagingFailure
abbrev pub staging_failure : String → String → TurnError
staging_failure step cause = record { phase = staging; step = step; cause = cause; notes = [] }

-- the function that a submission has the turn run, if there is one
abbrev pub Accept : Type 0 → Type 0
Accept W = Option (W → Option String × W)

unfoldable pub run_accept : {W : Type 0} → Accept W → W → Option String × W
run_accept none w = (none, w)
run_accept (some accept) w = accept w

abbrev pub ruleset_record : Options → String
ruleset_record opts = opts.state_dir ⋅ "/applied/ruleset.nft"

-- withNote on an *Error, and on the notes of a *Result
unfoldable pub noted : Turned → Option String → Turned
noted r none = r
noted (done result) (some e) = done (record result { notes = result.notes ++ e ∷ [] })
noted (failed failure) (some e) = failed (record failure { notes = failure.notes ++ e ∷ [] })

module _ {W : Type 0} (host : Host W) (opts : Options) where
  record_text : FirewallChange → W → Option String × W
  unfolding wrap
  record_text change w =
      let (e, w') = host.write_file (ruleset_record opts) change.rules 420 w in
      (wrap ("cannot record the installed ruleset in " ⋅ ruleset_record opts) e, w')

  record_dir : FirewallChange → W → Option String × W
  unfolding path_dir attempt record_text
  record_dir change w =
      let dir = path_dir (ruleset_record opts) in
      let (e, w') = host.make_dir dir 493 w in
      attempt ("cannot create " ⋅ dir) e w' (record_text change)

  -- Engine.record
  unfoldable pub record_rules : FirewallChange → W → Option String × W
  unfolding record_dir
  record_rules change w = if change.apply then record_dir change w else (none, w)

  after_record : Plan → Option String → TurnResult
  unfolding state_of
  after_record plan none = record { changed = true; notes = []; state = state_of plan none }
  after_record plan (some e) = record {
    changed = true;
    notes = (e ⋅ "; the next apply will install the ruleset again") ∷ [];
    state = state_of plan none;
  }

  after_commit : Option TurnError → Plan → Writer → W → Turned × Plan × Writer × W
  unfolding record_rules after_record
  after_commit (some failure) plan d w = (failed failure, plan, d, w)
  after_commit none plan d w =
      let (e, w') = record_rules plan.firewall w in (done (after_record plan e), plan, d, w')

  after_accept : Plan → Option String → Writer → W → Turned × Plan × Writer × W
  unfolding commit after_commit
  after_accept plan (some e) d w =
      (failed (staging_failure "recording the declaration as accepted" e), plan, d, w)
  after_accept plan none d w =
      let (failure, plan', d', w') = commit host plan d w in after_commit failure plan' d' w'

  after_stage : Accept W → Plan → Option String → Writer → W → Turned × Plan × Writer × W
  unfolding run_accept after_accept
  after_stage accept plan (some e) d w =
      (failed (staging_failure "writing what the configuration asks for" e), plan, d, w)
  after_stage accept plan none d w = let (e, w') = run_accept accept w in after_accept plan e d w'

  after_empty : Plan → Option String → Writer → W → Turned × Plan × Writer × W
  unfolding state_of
  after_empty plan (some e) d w =
      (failed (staging_failure "recording the declaration as accepted" e), plan, d, w)
  after_empty plan none d w =
      (done (record { changed = false; notes = []; state = state_of plan none }), plan, d, w)

  empty_turn : Accept W → Plan → Writer → W → Turned × Plan × Writer × W
  unfolding run_accept after_empty
  empty_turn accept plan d w = let (e, w') = run_accept accept w in after_empty plan e d w'

  full_turn : Accept W → Plan → Writer → W → Turned × Plan × Writer × W
  unfolding stage after_stage
  full_turn accept plan d w = let (e, w') = stage host plan w in after_stage accept plan e d w'

  -- Engine.stageAndCommit
  unfoldable pub stage_and_commit : Accept W → Plan → Writer → W → Turned × Plan × Writer × W
  unfolding is_empty empty_turn full_turn
  stage_and_commit accept plan d w =
      if is_empty plan then empty_turn accept plan d w else full_turn accept plan d w

  settle_after : Codec → Turned × Plan × Writer × W → Turned × Plan × Writer × W
  unfolding settle_owed noted
  settle_after codec (r, plan, d, w) =
      let (e, w') = settle_owed host opts codec plan w in (noted r e, plan, d, w')

  -- Engine.turn
  unfoldable pub turn : Codec → Accept W → Plan → Writer → W → Turned × Plan × Writer × W
  unfolding stage_and_commit settle_after
  turn codec accept plan d w = settle_after codec (stage_and_commit accept plan d w)

  abbrev pub accepted_file : String
  accepted_file = opts.state_dir ⋅ "/accepted/declaration.yaml"

  write_accepted : String → W → Option String × W
  unfolding wrap
  write_accepted declaration w =
      let (e, w') = host.write_file accepted_file declaration 420 w in
      (wrap ("cannot record the declaration as accepted in " ⋅ accepted_file) e, w')

  record_accepted : String → W → Option String × W
  unfolding path_dir attempt write_accepted
  record_accepted declaration w =
      let (e, w') = host.make_dir (path_dir accepted_file) 493 w in
      attempt ("cannot create " ⋅ path_dir accepted_file) e w' (write_accepted declaration)

  after_read : String → FileAnswer → W → Option String × W
  unfolding record_accepted
  after_read declaration (found content mode) w =
      if content =ˢ declaration then (none, w) else record_accepted declaration w
  after_read declaration missing w = record_accepted declaration w
  after_read declaration (unreadable e) w = record_accepted declaration w

  -- Engine.accept
  unfoldable pub accept : String → W → Option String × W
  unfolding after_read
  accept declaration w = after_read declaration (host.read_file accepted_file w) w
