-- ===== src/Apply/Commit.antt =====
-- The commit stage of internal/apply/apply.go, with the write of one DNS record in dns.go. The plan,
-- to which the stage adds what ran and what the provider refused, the DNS writer of the engine and
-- the host are passed along.
pub mod Stops
pub mod Completes
use regied.Prelude.{
  String, Bool, true, false, Option, none, some, List, [], ◌∷◌, ◌++◌, ◌⋅◌, ◌=ˢ◌, if◌then◌else◌,
  trim_space,
}
use regied.Ddns.{Writer, write}
use regied.Apply.Types.{Phase, StepKind, Step, DnsChange, Plan, describe}
use regied.Apply.Host.{FileAnswer, found, missing, unreadable, Host}
use regied.Apply.Owed.{owed_key}
use regied.Apply.Staging.{wrap, write_change, remove_change}

-- Error; it stands for the Go type of that name
pub record TurnError : Type 0 where
  pub phase : Phase
  pub step : String
  pub cause : String
  pub notes : List String

abbrev pub is_dns : StepKind → Bool
is_dns StepKind.dns = true
is_dns _ = false

module _ {W : Type 0} (host : Host W) where
  token_read : DnsChange → String → Writer → W → Option String × Writer × W
  unfolding write
  token_read change token d w =
      if token =ˢ ""
      then (some ("the API token " ⋅ change.token_file ⋅ " is empty"), d, w)
      else write host.provider token change.entry d w

  unreadable_token : DnsChange → String → Option String
  unreadable_token change e = some ("the API token " ⋅ change.token_file ⋅ " cannot be read: " ⋅ e)

  after_token : DnsChange → FileAnswer → Writer → W → Option String × Writer × W
  unfolding trim_space token_read unreadable_token
  after_token change missing d w = (unreadable_token change "file does not exist", d, w)
  after_token change (unreadable e) d w = (unreadable_token change e, d, w)
  after_token change (found content mode) d w = token_read change (trim_space content) d w

  -- Engine.writeRecord
  unfoldable pub write_record : DnsChange → Writer → W → Option String × Writer × W
  unfolding after_token
  write_record change d w = after_token change (host.read_file change.token_file w) d w

  run_kind : Step → StepKind → Writer → W → Option String × Writer × W
  unfolding wrap remove_change write_change write_record
  run_kind s StepKind.sysctl d w =
      let (e, w') = host.set_sysctl s.switch.key s.switch.value w in
      (wrap ("cannot set " ⋅ s.switch.key) e, d, w')
  run_kind s StepKind.remove d w = let (e, w') = remove_change host s.file w in (e, d, w')
  run_kind s StepKind.write d w =
      let (e, w') = write_change host s.file s.file.content w in (e, d, w')
  run_kind s StepKind.keep d w = (none, d, w)
  run_kind s StepKind.dns d w = write_record s.dns d w
  run_kind s StepKind.command d w = let (e, w') = host.run_command s.command w in (e, d, w')
  run_kind s StepKind.seed d w = let (e, w') = host.run_command s.command w in (e, d, w')

  -- Engine.run
  unfoldable pub run : Step → Writer → W → Option String × Writer × W
  unfolding run_kind
  run s d w = run_kind s s.kind d w

-- what the loop does with the outcome of one step
pub data Verdict : Type 0 where
  goes_on : Plan → Verdict
  stops : TurnError → Verdict

-- plan.ran[owedKey(step)] = true
unfoldable pub mark_ran : Step → Plan → Plan
mark_ran s plan = record plan { ran = owed_key s ∷ plan.ran }

unfoldable pub mark_refused : Step → String → Plan → Plan
unfolding describe
mark_refused s e plan = record plan {
  failing = plan.failing ++ (describe s ⋅ ": " ⋅ e) ∷ [];
  failed_records = describe s ∷ plan.failed_records;
}

unfoldable pub verdict : Step → Option String → Plan → Verdict
unfolding mark_ran mark_refused describe
verdict s none plan = goes_on (mark_ran s plan)
verdict s (some e) plan =
    if is_dns s.kind
    then goes_on (mark_refused s e plan)
    else stops (record { phase = s.phase; step = describe s; cause = e; notes = [] })

module _ {W : Type 0} (host : Host W) where
  unfoldable pub commit_steps : List Step → Plan → Writer → W → Option TurnError × Plan × Writer × W
  unfolding run verdict
  commit_steps [] plan d w = (none, plan, d, w)
  commit_steps (s ∷ ss) plan d w =
      let (e, d', w') = run host s d w in
      elim (verdict s e plan) [
        | goes_on plan' ↦ commit_steps ss plan' d' w'
        | stops failure ↦ (some failure, plan, d', w')
      ]

  -- Engine.commit
  unfoldable pub commit : Plan → Writer → W → Option TurnError × Plan × Writer × W
  unfolding commit_steps
  commit plan d w = commit_steps plan.steps plan d w
