-- ===== src/Apply/Examples/Committing.antt =====
-- The theorems on the staging and the commit stage, at an input.
use regied.Prelude.{refl, [], ◌∷◌, All}
use regied.Ddns.{new_writer}
use regied.Apply.Types.{Plan, process_config, describe, firewall}
use regied.Apply.Disk.{Disk, disk, HasRun, disk-KeptByFiles}
use regied.Apply.Staging.{stage}
use regied.Apply.Staging.Effects.{stage-Kept}
use regied.Apply.Commit.{TurnError, run, verdict, commit_steps, commit}
use regied.Apply.Commit.Stops.{Stopped, commit-Stopped}
use regied.Apply.Commit.Completes.{IsAttempted, commit-IsAttempted}
use regied.Apply.Examples.{plan_of, created, command_of, reload, start}

abbrev blank : Disk
blank = record { files = []; commands = [] }

abbrev stopping : Plan
stopping = plan_of [] (reload ∷ start ∷ reload ∷ []) []

abbrev failure : TurnError
failure = record {
  phase = process_config;
  step = "systemctl daemon-reload";
  cause = "command not found";
  notes = [];
}

commit-Stopped_example :
    Stopped disk stopping.steps stopping new_writer blank failure
      (commit disk stopping new_writer blank)
unfolding commit commit_steps run verdict disk describe
commit-Stopped_example = commit-Stopped disk stopping new_writer blank failure refl

abbrev going : Plan
going = plan_of [] (command_of firewall "nft" ("-f" ∷ "-" ∷ []) ∷ reload ∷ []) []

commit-IsAttempted_example : All (IsAttempted (commit disk going new_writer blank).1) going.steps
unfolding commit commit_steps run verdict disk describe
commit-IsAttempted_example = commit-IsAttempted disk going new_writer blank refl

stage-Kept_example :
    HasRun []
      (stage disk
        (plan_of (created "/etc/systemd/network/10-regied-lan.network" "[Match]" ∷ []) [] [])
        blank).1
unfolding HasRun
stage-Kept_example =
    stage-Kept disk (HasRun []) (disk-KeptByFiles [])
      (plan_of (created "/etc/systemd/network/10-regied-lan.network" "[Match]" ∷ []) [] []) blank
      refl
