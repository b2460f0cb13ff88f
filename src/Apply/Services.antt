-- ===== src/Apply/Services.antt =====
-- internal/apply/services.go: what the commit stage does to the processes that regied supervises.
pub mod Restarts
use regied.Prelude.{
  String, Bool, true, false, not, ◌||◌, Option, none, some, List, [], ◌∷◌, ◌++◌, ◌=ˢ◌, ◌⋅◌,
  if◌then◌else◌, mem, has_prefix, trim_prefix, trim_suffix, sort, Result, ok, err,
}
use Prim.Native.String as Text
use regied.Apply.Types.{
  Phase, processes, process_config, ChangeKind, unchanged, create, reclaim, FileChange, kind_eq,
  was_written, no_file, Command, StepKind, Step, blank_step, Plan,
}

unfoldable pub systemctl : List String → Command
systemctl args = record { name = "systemctl"; args = args; stdin = "" }

-- step { Kind: StepCommand }
unfoldable pub command_step : Phase → String → Command → Bool → Step
command_step phase reason run owed = record (blank_step phase StepKind.command reason) {
  command = run;
  owed = owed;
}

unfoldable pub daemon_reload : Phase → String → Step
unfolding systemctl command_step
daemon_reload phase reason = command_step phase reason (systemctl ("daemon-reload" ∷ [])) true

-- `active` is what systemd said, if it was asked
pub record Service : Type 0 where
  pub what : String
  pub unit : String
  pub declared : Bool
  pub unit_file : FileChange
  pub inputs : List FileChange
  pub active : Option Bool

-- service.files
unfoldable pub service_files : Service → List FileChange
service_files s = s.unit_file ∷ s.inputs

unfoldable pub any_kind : ChangeKind → List FileChange → Bool
any_kind k [] = false
any_kind k (f ∷ fs) = let rest = any_kind k fs in if kind_eq f.kind k then true else rest

unfoldable pub any_had_before : List FileChange → Bool
any_had_before [] = false
any_had_before (f ∷ fs) = let rest = any_had_before fs in if f.had_before then true else rest

unfoldable pub any_written : List FileChange → Bool
any_written [] = false
any_written (f ∷ fs) = let rest = any_written fs in if was_written f then true else rest

-- service.command
unfoldable pub service_command : String → List String → Step
unfolding systemctl command_step
service_command reason args = command_step processes reason (systemctl args) false

abbrev pub is_inactive : Option Bool → Bool
is_inactive none = false
is_inactive (some active) = not active

-- service.steps
unfoldable pub service_steps : Service → List Step
unfolding service_command service_files any_kind any_had_before any_written
service_steps s =
    if not s.declared
    then (if any_kind reclaim (service_files s)
        then service_command (s.what ⋅ " is no longer declared") ("disable" ∷ "--now" ∷ s.unit ∷ [])
          ∷ []
        else [])
    else if not (any_had_before s.inputs)
    then service_command (s.what ⋅ " is not on the host yet") ("enable" ∷ "--now" ∷ s.unit ∷ [])
      ∷ []
    else if is_inactive s.active
    then service_command (s.what ⋅ " is not active") ("start" ∷ s.unit ∷ []) ∷ []
    else if kind_eq s.unit_file.kind create
    then service_command ("the unit " ⋅ s.what ⋅ " runs from was put back") ("enable" ∷ s.unit ∷ [])
      ∷ service_command ("something " ⋅ s.what ⋅ " reads changed") ("restart" ∷ s.unit ∷ [])
      ∷ []
    else if was_written s.unit_file || any_written s.inputs
    then service_command ("something " ⋅ s.what ⋅ " reads changed") ("restart" ∷ s.unit ∷ []) ∷ []
    else []

-- changeFor
unfoldable pub change_in : String → List FileChange → FileChange
change_in path [] = record no_file { path = path }
change_in path (f ∷ fs) = if f.path =ˢ path then f else change_in path fs

-- namesIn
unfoldable pub names_in : String → List FileChange → List String
names_in prefix [] = []
names_in prefix (f ∷ fs) =
    let rest = names_in prefix fs in
    if has_prefix f.path prefix
    then trim_suffix (trim_prefix f.path prefix) ".conf" ∷ rest
    else rest

-- slices.Compact
unfoldable pub compact : List String → List String
compact [] = []
compact (a ∷ []) = a ∷ []
compact (a ∷ b ∷ r) = let rest = compact (b ∷ r) in if a =ˢ b then rest else a ∷ rest

-- Options, as far as the engine's plan and turn read it
pub record Options : Type 0 where
  pub networkd_dir : String
  pub root : String
  pub state_dir : String
  pub unit_dir : String
  pub ppp_dir : String

-- rendering, as far as the steps read it: a written .link file and the link it is for
pub record LinkFile : Type 0 where
  pub path : String
  pub ifname : String

pub record Rendering : Type 0 where
  pub sessions : List String
  pub dnsmasq : Bool
  pub link_files : List LinkFile

-- what the host answers while a plan is made: `units` is nil on a host that cannot be asked, and
-- `link_missing` is whether Links.Addresses says ErrLinkNotFound
pub record Probes : Type 0 where
  pub units : Option (String → Result Bool)
  pub link_missing : String → Bool

abbrev pub unit_prefix : String
unit_prefix = "regied-"

abbrev pub pppoe_unit : String → String
pppoe_unit session = unit_prefix ⋅ "pppoe@" ⋅ session ⋅ ".service"

abbrev pub pppoe_template_unit : String
pppoe_template_unit = unit_prefix ⋅ "pppoe@.service"

abbrev pub dnsmasq_unit : String
dnsmasq_unit = unit_prefix ⋅ "dnsmasq.service"

-- unitActive, with the note that it adds to the plan
unit_active : Probes → Bool → String → Option Bool × List String
unit_active probes rendered unit = elim probes.units [
  | none ↦ (none, [])
  | some ask ↦ if rendered then (none, []) else elim (ask unit) [
    | ok active ↦ (some active, [])
    | err e ↦ (none, ("could not ask whether " ⋅ unit ⋅ " is active: " ⋅ e) ∷ [])
  ]
]

unfoldable pub session_service : Options → Plan → List String → Option Bool → String → Service
unfolding change_in
session_service opts plan sessions active name = record {
  what = "the session " ⋅ name;
  unit = pppoe_unit name;
  declared = mem name sessions;
  unit_file = change_in (opts.unit_dir ⋅ "/" ⋅ pppoe_template_unit) plan.files;
  inputs =
      change_in (opts.root ⋅ "/ppp/peers/" ⋅ name ⋅ ".conf") plan.files
      ∷ change_in (opts.root ⋅ "/ppp/credentials/" ⋅ name ⋅ ".conf") plan.files
      ∷ [];
  active = active;
}

-- the loop over the names
unfoldable pub session_services :
    Options → Probes → Plan → List String → List String → List Service × List String
unfolding unit_active session_service
session_services opts probes plan sessions [] = ([], [])
session_services opts probes plan sessions (name ∷ names) =
    let (active, note) = unit_active probes plan.rendered (pppoe_unit name) in
    let (rest, notes) = session_services opts probes plan sessions names in
    (session_service opts plan sessions active name ∷ rest, note ++ notes)

-- the sorted names of the sessions that are declared or still have a file
unfoldable pub session_names : Options → Plan → List String → List String
unfolding names_in compact sort
session_names opts plan sessions = compact (
    sort Text.compare (
      sessions
      ++ (names_in (opts.root ⋅ "/ppp/peers/") plan.files
          ++ names_in (opts.root ⋅ "/ppp/credentials/") plan.files)))

-- Engine.services, with the notes that it adds to the plan
unfoldable pub services : Options → Probes → Plan → Rendering → List Service × List String
unfolding session_names session_services unit_active change_in
services opts probes plan rendered =
    let (sessions, notes) =
      session_services opts probes plan rendered.sessions
        (session_names opts plan rendered.sessions) in
    let (active, note) = unit_active probes plan.rendered dnsmasq_unit in
    let dns : Service = record {
      what = "dnsmasq";
      unit = dnsmasq_unit;
      declared = rendered.dnsmasq;
      unit_file = change_in (opts.unit_dir ⋅ "/" ⋅ dnsmasq_unit) plan.files;
      inputs = change_in (opts.root ⋅ "/dnsmasq/dnsmasq.conf") plan.files ∷ [];
      active = active;
    } in
    (sessions ++ dns ∷ [], notes ++ note)

-- deferredFiles
unfoldable pub deferred_files : ChangeKind → List FileChange → List FileChange
deferred_files k [] = []
deferred_files k (f ∷ fs) =
    let rest = deferred_files k fs in
    if f.deferred then (if kind_eq f.kind k then f ∷ rest else rest) else rest

unfoldable pub removals : String → List FileChange → List Step
removals reason [] = []
removals reason (f ∷ fs) =
    record (blank_step processes StepKind.remove reason) { file = f } ∷ removals reason fs

-- deferredReclaim
unfoldable pub deferred_reclaim : List FileChange → String → List Step
unfolding removals daemon_reload
deferred_reclaim [] reason = []
deferred_reclaim (f ∷ fs) reason =
    removals reason (f ∷ fs) ++ daemon_reload processes "a unit was taken away" ∷ []
