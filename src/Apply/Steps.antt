-- ===== src/Apply/Steps.antt =====
-- internal/apply/plan.go, Engine.steps and what it calls: what the commit stage would run, in order.
-- The steps that look at the host carry the notes that they add to the plan.
pub mod Order
pub mod Quiet
use regied.Prelude.{
  String, Bool, true, false, not, ◌&&◌, ◌||◌, Option, none, some, List, [], ◌∷◌, ◌++◌, map, ◌=ˢ◌,
  ◌⋅◌, if◌then◌else◌, has_prefix, path_dir, path_ext,
}
use regied.Apply.Types.{
  Phase, firewall, kernel, networkd, process_config, dns, unchanged, reclaim, absent, TableState,
  FileChange, SwitchChange, SetElements, FirewallChange, kind_eq, was_written, Command, DnsChange,
  StepKind, Step, blank_step, Plan, join,
}
use regied.Apply.Services.{
  Options, Probes, Rendering, LinkFile, Service, change_in, command_step, daemon_reload,
  service_steps, services, deferred_files, deferred_reclaim,
}

-- SetElements.String
abbrev elements_text : SetElements → String
elements_text s = s.set ⋅ " { " ⋅ join ", " s.elements ⋅ " }"

abbrev table_words : String
table_words = "inet regied "

-- the statements for one set
set_text : SetElements → String
unfolding join
set_text s =
    "flush set "
    ⋅ table_words
    ⋅ s.set
    ⋅ "\n"
    ⋅ elim s.elements [ [] ↦ "" | _ ∷ _ ↦ "add element " ⋅ table_words ⋅ elements_text s ⋅ "\n" ]

sets_text : List SetElements → String
unfolding set_text
sets_text [] = ""
sets_text (s ∷ ss) = set_text s ⋅ sets_text ss

-- seedingText
unfoldable pub seeding_text : List SetElements → String
unfolding sets_text
seeding_text [] = ""
seeding_text (s ∷ ss) =
    "\n# What each uplink is holding, and what the delegated prefix makes of an address set,\n"
    ⋅ "# read by this apply. It is not part of the ruleset above: both are runtime state\n"
    ⋅ "# (ADR 0015, ADR 0021).\n"
    ⋅ sets_text (s ∷ ss)

abbrev nft : String → Command
nft stdin = record { name = "nft"; args = "-f" ∷ "-" ∷ []; stdin = stdin }

-- firewallReason
firewall_reason : FirewallChange → String
firewall_reason c = elim c.table [
  | absent ↦ "the table is not in the kernel"
  | _ ↦ "the ruleset changed"
]

ruleset_steps : FirewallChange → List Step
unfolding firewall_reason command_step
ruleset_steps c =
    if c.apply then command_step firewall (firewall_reason c) (nft c.rules) false ∷ [] else []

-- describeElements and seedCommand
seed_steps : List SetElements → List Step
unfolding seeding_text join
seed_steps [] = []
seed_steps (s ∷ ss) =
    record (blank_step firewall StepKind.seed
      ("write the sets: " ⋅ join ", " (map elements_text (s ∷ ss)))) {
        command = nft (seeding_text (s ∷ ss));
      }
    ∷ []

switch_steps : List SwitchChange → List Step
switch_steps [] = []
switch_steps (c ∷ cs) =
    let rest = switch_steps cs in
    if c.changed
    then record (blank_step kernel StepKind.sysctl "spec.global") { switch = c } ∷ rest
    else rest

-- readByNetworkd, readByUdev
abbrev pub read_by_networkd : Options → String → Bool
read_by_networkd opts file = path_dir file =ˢ opts.networkd_dir && not (path_ext file =ˢ ".link")

abbrev pub read_by_udev : Options → String → Bool
read_by_udev opts file = path_dir file =ˢ opts.networkd_dir && path_ext file =ˢ ".link"

-- changedWhere
unfoldable pub changed_where : (String → Bool) → List FileChange → Bool
changed_where picks [] = false
changed_where picks (f ∷ fs) =
    let rest = changed_where picks fs in
    if not (kind_eq f.kind unchanged) && picks f.path then true else rest

-- writtenIn
unfoldable pub written_in : String → List FileChange → Bool
written_in prefix [] = false
written_in prefix (f ∷ fs) =
    let rest = written_in prefix fs in
    if has_prefix f.path prefix && was_written f then true else rest

unfoldable pub reload_steps : Options → List FileChange → List Step
unfolding command_step changed_where path_dir path_ext
reload_steps opts files =
    if changed_where (read_by_networkd opts) files
    then command_step networkd "the systemd-networkd configuration changed"
        (record { name = "networkctl"; args = "reload" ∷ []; stdin = "" }) true
      ∷ []
    else []

-- udevTriggerCommand
abbrev pub udev_trigger_command : String → Command
udev_trigger_command ifname = record {
  name = "udevadm";
  args = "trigger" ∷ "--settle" ∷ "--action=add" ∷ ("/sys/class/net/" ⋅ ifname) ∷ [];
  stdin = "";
}

-- the loop of udevSteps
trigger_steps : Probes → List FileChange → List LinkFile → List Step × List String
unfolding command_step change_in
trigger_steps probes files [] = ([], [])
trigger_steps probes files (l ∷ ls) =
    let (steps, notes) = trigger_steps probes files ls in
    if not (was_written (change_in l.path files))
    then (steps, notes)
    else if probes.link_missing l.ifname
    then (
      steps,
      (l.ifname ⋅ " is not on this host, so " ⋅ l.path
            ⋅ " was not applied to it; udev applies it when the link appears")
          ∷ notes,
    )
    else (
      command_step networkd ("the .link file for " ⋅ l.ifname ⋅ " was written")
            (udev_trigger_command l.ifname) true
          ∷ steps,
      notes,
    )

-- udevSteps
unfoldable pub udev_steps :
    Options → Probes → List FileChange → List LinkFile → List Step × List String
unfolding trigger_steps command_step changed_where path_dir path_ext
udev_steps opts probes files links =
    if not (changed_where (read_by_udev opts) files)
    then ([], [])
    else let (steps, notes) = trigger_steps probes files links in
      (
        command_step networkd "a .link file changed"
              (record { name = "udevadm"; args = "control" ∷ "--reload" ∷ []; stdin = "" }) true
            ∷ steps,
        notes,
      )

unfoldable pub unit_steps : Options → List FileChange → List Step
unfolding written_in daemon_reload has_prefix
unit_steps opts files =
    if written_in (opts.unit_dir ⋅ "/") files
    then daemon_reload process_config "a unit was written" ∷ []
    else []

all_service_steps : List Service → List Step
unfolding service_steps
all_service_steps [] = []
all_service_steps (s ∷ ss) = service_steps s ++ all_service_steps ss

dns_steps : List DnsChange → List Step
dns_steps [] = []
dns_steps (c ∷ cs) =
    let rest = dns_steps cs in
    if c.write
    then record (blank_step dns StepKind.dns (c.resource ⋅ ": " ⋅ c.reason)) { dns = c } ∷ rest
    else rest

-- Engine.steps, with the notes
unfoldable pub steps : Options → Probes → Plan → Rendering → List Step × List String
unfolding ruleset_steps seed_steps switch_steps reload_steps udev_steps unit_steps services
    all_service_steps deferred_files deferred_reclaim dns_steps
steps opts probes plan rendered =
    let (udev, notes) = udev_steps opts probes plan.files rendered.link_files in
    let (processes, notes') = services opts probes plan rendered in
    (
      ruleset_steps plan.firewall
          ++ (seed_steps plan.firewall.elements
              ++ (switch_steps plan.switches
                  ++ (reload_steps opts plan.files
                      ++ (udev
                          ++ (unit_steps opts plan.files
                              ++ (all_service_steps processes
                                  ++ (deferred_reclaim (deferred_files reclaim plan.files)
                                        "nothing runs from this unit any more"
                                      ++ dns_steps plan.records))))))),
      notes ++ notes',
    )
