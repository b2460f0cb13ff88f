-- ===== src/Apply/Types.antt =====
-- The data types of internal/apply/plan.go, owed.go and turn.go. File contents, paths and messages
-- are texts; file modes are numbers.
use regied.Prelude.{ℕ, String, Bool, true, false, ◌||◌, List, [], ◌∷◌, ◌⋅◌}
use regied.Ddns.{Record}

-- The constants of Phase. Go's type is an integer, and a number in owed.yaml that is no constant is left
-- out: a file that this program wrote holds none.
pub data Phase : Type 0 where
  staging firewall kernel networkd process_config processes dns : Phase

-- the value of the constant
abbrev pub rank : Phase → ℕ
rank staging = 0
rank firewall = 1
rank kernel = 2
rank networkd = 3
rank process_config = 4
rank processes = 5
rank dns = 6

-- Phase.String
pub phase_name : Phase → String
phase_name staging = "staging"
phase_name firewall = "firewall"
phase_name kernel = "kernel switches"
phase_name networkd = "networkd"
phase_name process_config = "process configuration"
phase_name processes = "processes"
phase_name dns = "dns records"

pub data ChangeKind : Type 0 where
  unchanged create update reclaim : ChangeKind

pub record FileChange : Type 0 where
  pub path : String
  pub kind : ChangeKind
  pub mode : ℕ
  pub dir_mode : ℕ
  pub content : String
  pub secret : Bool
  pub withheld : Bool
  pub deferred : Bool
  pub before : String
  pub had_before : Bool
  pub before_mode : ℕ

pub record SwitchChange : Type 0 where
  pub key : String
  pub value : String
  pub before : String
  pub had_before : Bool
  pub changed : Bool

pub data TableState : Type 0 where
  unknown present absent : TableState

pub record SetElements : Type 0 where
  pub set : String
  pub elements : List String

pub record FirewallChange : Type 0 where
  pub rules : String
  pub elements : List SetElements
  pub before : String
  pub table : TableState
  pub note : String
  pub apply : Bool

pub record Command : Type 0 where
  pub name : String
  pub args : List String
  pub stdin : String

pub record DnsChange : Type 0 where
  pub resource : String
  pub follows : String
  pub entry : Record
  pub token_file : String
  pub write : Bool
  pub reason : String

pub data StepKind : Type 0 where
  command sysctl remove write seed keep dns : StepKind

pub record Step : Type 0 where
  pub phase : Phase
  pub kind : StepKind
  pub reason : String
  pub command : Command
  pub switch : SwitchChange
  pub file : FileChange
  pub dns : DnsChange
  pub owed : Bool

pub record OwedStep : Type 0 where
  pub phase : Phase
  pub reason : String
  pub name : String
  pub args : List String

-- `failed_records` and `ran` are sets of texts; the secret contents are kept by path
pub record SecretContent : Type 0 where
  pub content : String
  pub before : String
  pub had_before : Bool

pub record Plan : Type 0 where
  pub warnings : List String
  pub notes : List String
  pub delegations : List String
  pub waiting : List String
  pub failing : List String
  pub files : List FileChange
  pub switches : List SwitchChange
  pub firewall : FirewallChange
  pub records : List DnsChange
  pub steps : List Step
  pub rendered : Bool
  pub validation : List String
  pub failed_records : List String
  pub owed : List OwedStep
  pub ran : List String
  pub secrets : List (String × SecretContent)

-- the zero values of the fields that a step does not name
abbrev pub no_command : Command
no_command = record { name = ""; args = []; stdin = "" }

abbrev pub no_switch : SwitchChange
no_switch = record { key = ""; value = ""; before = ""; had_before = false; changed = false }

abbrev pub no_file : FileChange
no_file = record {
  path = "";
  kind = unchanged;
  mode = 0;
  dir_mode = 0;
  content = "";
  secret = false;
  withheld = false;
  deferred = false;
  before = "";
  had_before = false;
  before_mode = 0;
}

abbrev pub no_dns : DnsChange
no_dns = record {
  resource = "";
  follows = "";
  entry = record { zone = ""; name = ""; kind = ""; content = ""; proxied = false; ttl = 0 };
  token_file = "";
  write = false;
  reason = "";
}

abbrev pub blank_step : Phase → StepKind → String → Step
blank_step phase kind reason = record {
  phase = phase;
  kind = kind;
  reason = reason;
  command = no_command;
  switch = no_switch;
  file = no_file;
  dns = no_dns;
  owed = false;
}

abbrev pub kind_eq : ChangeKind → ChangeKind → Bool
kind_eq unchanged unchanged = true
kind_eq create create = true
kind_eq update update = true
kind_eq reclaim reclaim = true
kind_eq _ _ = false

-- wasWritten
abbrev pub was_written : FileChange → Bool
was_written f = kind_eq f.kind create || kind_eq f.kind update

-- strings.Join
unfoldable pub join : String → List String → String
join sep [] = ""
join sep (s ∷ []) = s
join sep (s ∷ t ∷ r) = s ⋅ sep ⋅ join sep (t ∷ r)

-- Command.String
unfoldable pub command_text : Command → String
unfolding join
command_text c = join " " (c.name ∷ c.args)

unfoldable pub describe_dns : DnsChange → String
describe_dns c =
    "set " ⋅ c.entry.name ⋅ " " ⋅ c.entry.kind ⋅ " to " ⋅ c.entry.content ⋅ " in " ⋅ c.entry.zone

-- Step.describe
describe_kind : StepKind → Step → String
unfolding command_text describe_dns
describe_kind StepKind.seed s = s.reason
describe_kind StepKind.sysctl s = s.switch.key ⋅ " = " ⋅ s.switch.value
describe_kind StepKind.remove s = "reclaim " ⋅ s.file.path
describe_kind StepKind.write s = "put back " ⋅ s.file.path
describe_kind StepKind.keep s = s.reason
describe_kind StepKind.dns s = describe_dns s.dns
describe_kind StepKind.command s = command_text s.command

unfoldable pub describe : Step → String
unfolding describe_kind
describe s = describe_kind s.kind s
