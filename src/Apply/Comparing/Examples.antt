-- ===== src/Apply/Comparing/Examples.antt =====
-- The theorems on the comparison, at an input.
use regied.Prelude.{◌≡◌, refl, String, true, false, [], ◌∷◌, path_dir, ok}
use regied.Apply.Types.{create, reclaim, FileChange, no_file}
use regied.Apply.Disk.{Disk, disk, disk-FileLaws}
use regied.Apply.Staging.{stage_file}
use regied.Apply.Examples.{options, plan_of}
use regied.Apply.Comparing.{Artifact, owned_dirs, compare_file, hide}
use regied.Apply.Comparing.Staged.{IsUnchanged, compare_file-IsUnchanged}

abbrev blank : Disk
blank = record { files = []; commands = [] }

-- a file with credentials
abbrev credentials : Artifact
credentials = record {
  path = "/etc/regied/ppp/credentials/wan.conf";
  mode = 384;
  dir_mode = 448;
  content = "password secret";
  secret = false;
  withheld = false;
}

abbrev creation : FileChange
creation = record no_file {
  path = "/etc/regied/ppp/credentials/wan.conf";
  kind = create;
  mode = 384;
  dir_mode = 448;
  content = "password secret";
  secret = true;
}

credentials_run : compare_file disk options credentials blank ≡ ok creation
unfolding compare_file disk owned_dirs path_dir
credentials_run = refl

compare_file-IsUnchanged_example : IsUnchanged disk disk-FileLaws options (
    compare_file disk options credentials
      (stage_file disk
        (hide creation (plan_of [] [] [])).1
        (hide creation (plan_of [] [] [])).0
        blank).1)
unfolding stage_file hide disk
compare_file-IsUnchanged_example =
    compare_file-IsUnchanged disk disk-FileLaws options credentials creation (plan_of [] [] [])
      blank refl credentials_run refl

-- a host with a unit that an earlier apply wrote, and one of somebody else's
abbrev unit_text : String
unit_text = "# Generated by regied. Do not edit: every apply rewrites this file.\n[Unit]"

abbrev used : Disk
used = record {
  files =
      ("/etc/systemd/system/regied-old.service", (unit_text, 420))
      ∷ ("/etc/systemd/system/regied-mine.service", ("[Unit]", 420))
      ∷ ("/etc/systemd/system/sshd.service", ("[Unit]", 420))
      ∷ [];
  commands = [];
}

abbrev removal : FileChange
removal = record no_file {
  path = "/etc/systemd/system/regied-old.service";
  kind = reclaim;
  deferred = true;
  before = unit_text;
  had_before = true;
  before_mode = 420;
}
