-- ===== src/Apply/Owed.antt =====
-- internal/apply/owed.go: the steps that an earlier turn did not get to run. The YAML text of the
-- file is a third-party library's: it enters as `Codec`.
pub mod Present
pub mod Runnable
pub mod Insert
use Prim.Native.Nat.{Ordering, compare}
use Prim.Native.String as Text
use regied.Prelude.{
  ℕ, suc, String, Bool, true, false, not, ◌&&◌, ◌||◌, Option, none, some, List, [], ◌∷◌, ◌++◌, ◌=ˢ◌,
  ◌⋅◌, if◌then◌else◌, ltb, mem, sort, or_else, cut_prefix, has_prefix, has_char, path_dir, is_some,
  Result, ok, err,
}
use regied.Apply.Types.{
  Phase, staging, firewall, kernel, networkd, process_config, processes, dns, rank, Command,
  StepKind, Step, OwedStep, Plan, blank_step, command_text, describe, join,
}
use regied.Apply.Services.{Options, Probes}
use regied.Apply.Steps.{udev_trigger_command}
use regied.Apply.Host.{FileAnswer, found, missing, unreadable, Host}

pub record Codec : Type 0 where
  pub encode : List OwedStep → Result String
  pub decode : String → Result (List OwedStep)

-- %d of a phase
abbrev pub digit : Phase → String
digit staging = "0"
digit firewall = "1"
digit kernel = "2"
digit networkd = "3"
digit process_config = "4"
digit processes = "5"
digit dns = "6"

unfoldable pub owed_key : Step → String
unfolding describe
owed_key s = digit s.phase ⋅ " " ⋅ describe s

abbrev pub owed_command : OwedStep → Command
owed_command o = record { name = o.name; args = o.args; stdin = "" }

-- owedStep.key
unfoldable pub key_of : OwedStep → String
unfolding owed_key
key_of o = owed_key (record (blank_step o.phase StepKind.command "") { command = owed_command o })

abbrev pub owed_file : Options → String
owed_file opts = opts.state_dir ⋅ "/turn/owed.yaml"

abbrev unread : String → String → String
unread location e =
    "what earlier turns left owed could not be read from " ⋅ location ⋅ " (" ⋅ e
    ⋅ "); this assumes nothing is"

unfoldable pub decoded : String → Result (List OwedStep) → List OwedStep × List String
decoded location (ok owed) = (owed, [])
decoded location (err e) = ([], unread location e ∷ [])

unfoldable pub read_answer : Codec → String → FileAnswer → List OwedStep × List String
unfolding decoded
read_answer codec location missing = ([], [])
read_answer codec location (unreadable e) = ([], unread location e ∷ [])
read_answer codec location (found content mode) = decoded location (codec.decode content)

-- readOwed, with the notes that it adds to the plan
unfoldable pub read_owed : {W : Type 0} → Codec → Host W → Options → W → List OwedStep × List String
unfolding read_answer
read_owed codec host opts w = read_answer codec (owed_file opts) (host.read_file (owed_file opts) w)

abbrev pub last_arg : List String → String
last_arg [] = ""
last_arg (a ∷ []) = a
last_arg (a ∷ b ∷ r) = last_arg (b ∷ r)

owable_trigger : Command → Option String → Bool
unfolding has_char command_text
owable_trigger c none = false
owable_trigger c (some link) =
    not (has_char b'/' link) && command_text c =ˢ command_text (udev_trigger_command link)

unfoldable pub owable : Command → Bool
unfolding command_text owable_trigger has_prefix cut_prefix
owable c =
    let rendered = command_text c in
    if rendered =ˢ "networkctl reload"
      || rendered =ˢ "udevadm control --reload"
      || rendered =ˢ "systemctl daemon-reload"
    then true
    else if has_prefix rendered "udevadm trigger "
    then owable_trigger c (cut_prefix (last_arg c.args) "/sys/class/net/")
    else false

pub link_gone : Probes → Command → Option String → Bool
link_gone probes c none = false
link_gone probes c (some link) = c.name =ˢ "udevadm" && probes.link_missing link

pub owed_step : OwedStep → Step
owed_step o =
    record (blank_step o.phase StepKind.command
      ("an earlier turn wrote the files and did not get to run this: " ⋅ o.reason)) {
        command = owed_command o;
        owed = true;
      }

-- slices.Insert before the first step of a later phase
unfoldable pub insert_step : Step → List Step → List Step
insert_step s [] = s ∷ []
insert_step s (t ∷ ts) =
    let rest = insert_step s ts in
    if ltb (rank s.phase) (rank t.phase) then s ∷ t ∷ ts else t ∷ rest

abbrev present : List Step → List String
present [] = []
present (s ∷ ss) = owed_key s ∷ present ss

own_owed : List Step → List OwedStep
own_owed [] = []
own_owed (s ∷ ss) =
    let rest = own_owed ss in
    if s.owed
    then record { phase = s.phase; reason = s.reason; name = s.command.name; args = s.command.args }
      ∷ rest
    else rest

-- whether the loop goes on to the next owed step without adding this one
skips : Probes → List String → OwedStep → Bool
unfolding owed_key owed_step owable link_gone cut_prefix
skips probes keys o =
    mem (owed_key (owed_step o)) keys
    || (not (owable (owed_command o))
        || link_gone probes (owed_command o) (cut_prefix (last_arg o.args) "/sys/class/net/"))

-- the loop over what was read; `keys` is the set `present`
pub add_each :
    Probes → List String → List OwedStep → List Step → List OwedStep → List Step × List OwedStep
unfolding skips insert_step owed_step owed_key
add_each probes keys [] steps owed = (steps, owed)
add_each probes keys (o ∷ os) steps owed =
    let skipped = add_each probes keys os steps owed in
    let added =
      add_each probes (owed_key (owed_step o) ∷ keys) os (insert_step (owed_step o) steps)
        (owed ++ o ∷ []) in
    if skips probes keys o then skipped else added

-- addOwed
unfoldable pub add_owed : {W : Type 0} → Codec → Host W → Probes → Options → W → Plan → Plan
unfolding add_each own_owed read_owed
add_owed codec host probes opts w plan =
    let (read, notes) = read_owed codec host opts w in
    let (steps, owed) =
      add_each probes (present plan.steps) read plan.steps (plan.owed ++ own_owed plan.steps) in
    record plan { steps = steps; owed = owed; notes = plan.notes ++ notes }
