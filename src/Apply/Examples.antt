-- ===== src/Apply/Examples.antt =====
-- Plans for the runs of the engine.
mod Planning
mod Committing
mod Turning
use regied.Prelude.{String, Bool, true, false, Option, none, some, List, [], ◌∷◌, Result, ok, err}
use regied.Apply.Types.{
  Phase, networkd, firewall, process_config, create, unchanged, unknown, FileChange, no_file,
  FirewallChange, Command, StepKind, Step, OwedStep, blank_step, Plan,
}
use regied.Apply.Services.{Options, Probes, Rendering, Service}

abbrev pub options : Options
options = record {
  networkd_dir = "/etc/systemd/network";
  root = "/etc/regied";
  state_dir = "/var/lib/regied";
  unit_dir = "/etc/systemd/system";
  ppp_dir = "/etc/ppp";
}

abbrev pub no_firewall : FirewallChange
no_firewall = record {
  rules = "";
  elements = [];
  before = "";
  table = unknown;
  note = "";
  apply = false;
}

abbrev pub plan_of : List FileChange → List Step → List OwedStep → Plan
plan_of files steps owed = record {
  warnings = [];
  notes = [];
  delegations = [];
  waiting = [];
  failing = [];
  files = files;
  switches = [];
  firewall = no_firewall;
  records = [];
  steps = steps;
  rendered = false;
  validation = [];
  failed_records = [];
  owed = owed;
  ran = [];
  secrets = [];
}

abbrev pub command_of : Phase → String → List String → Step
command_of phase name args = record (blank_step phase StepKind.command "") {
  command = record { name = name; args = args; stdin = "" };
}

abbrev pub created : String → String → FileChange
created path content = record no_file { path = path; kind = create; mode = 420; content = content }

abbrev pub probes : Probes
probes = record { units = none; link_missing = λ link. false }

abbrev pub no_rendering : Rendering
no_rendering = record { sessions = []; dnsmasq = false; link_files = [] }

abbrev pub reload : Step
reload = command_of networkd "networkctl" ("reload" ∷ [])

-- one that the host in memory refuses
abbrev pub start : Step
start = command_of process_config "systemctl" ("daemon-reload" ∷ [])
