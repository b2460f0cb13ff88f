-- ===== src/Apply/Examples/Turning.antt =====
-- The theorems on a whole turn, at an input.
use regied.Prelude.{arith, ◌≡◌, refl, String, true, Option, none, some, [], ◌∷◌}
use regied.Ddns.{new_writer}
use regied.Apply.Types.{Plan, OwedStep, networkd, staging}
use regied.Apply.Owed.{read_owed}
use regied.Apply.Settling.{left_owed, settle_owed}
use regied.Apply.Settling.Readback.{IsWhatIsLeft, read_owed-settle_owed}
use regied.Apply.Disk.{
  Disk, disk, HasRun, disk-FileLaws, disk-KeptByFiles, one_codec, one_codec-CodecLaws,
}
use regied.Apply.Staging.{stage}
use regied.Apply.Commit.{TurnError, run, verdict, commit_steps, commit}
use regied.Apply.Turn.{converged, run_accept, turn, accept, accepted_file, stage_and_commit}
use regied.Apply.Turn.Accepted.{HasContent, accept-HasContent}
use regied.Apply.Turn.Refused.{turn-Kept}
use regied.Apply.Turn.Converged.{read_owed-turn}
use regied.Apply.Examples.{options, plan_of, created, reload}

abbrev blank : Disk
blank = record { files = []; commands = [] }

abbrev owed_reload : OwedStep
owed_reload = record { phase = networkd; reason = ""; name = "networkctl"; args = [] }

read_owed-settle_owed_example :
    IsWhatIsLeft
      (plan_of [] [] (owed_reload ∷ []))
      (read_owed one_codec disk options
        (settle_owed disk options one_codec (plan_of [] [] (owed_reload ∷ [])) blank).1).0
unfolding settle_owed left_owed disk one_codec
read_owed-settle_owed_example =
    read_owed-settle_owed disk disk-FileLaws options one_codec one_codec-CodecLaws
      (plan_of [] [] (owed_reload ∷ [])) blank refl

accept-HasContent_example :
    HasContent disk (accepted_file disk options) "spec: {}" (accept disk options "spec: {}" blank).1
unfolding accept disk
accept-HasContent_example = accept-HasContent disk disk-FileLaws options "spec: {}" blank refl

-- a record of the declaration that cannot be written
abbrev refusal : Disk → Option String × Disk
refusal d = (some "read-only file system", d)

abbrev refused_turn : TurnError
refused_turn = record {
  phase = staging;
  step = "recording the declaration as accepted";
  cause = "read-only file system";
  notes = [];
}

abbrev reloading : Plan
reloading =
    plan_of (created "/etc/systemd/network/10-regied-lan.network" "[Match]" ∷ []) (reload ∷ []) []

turn-Kept_example :
    HasRun [] (turn disk options one_codec (some refusal) reloading new_writer blank).3
unfolding HasRun turn run_accept stage_and_commit stage settle_owed left_owed disk
turn-Kept_example =
    turn-Kept disk options (HasRun []) (disk-KeptByFiles []) one_codec (some refusal) (λ v h. h)
      reloading new_writer blank refused_turn (omega arith, tt) refl refl refl

read_owed-turn_example :
    (read_owed one_codec disk options
      (turn disk options one_codec none reloading new_writer blank).3).0
    ≡ []
unfolding turn stage_and_commit stage settle_owed left_owed disk commit commit_steps run verdict
read_owed-turn_example =
    read_owed-turn disk disk-FileLaws options one_codec one_codec-CodecLaws none reloading
      new_writer blank (record { changed = true; notes = []; state = converged }) tt refl refl
