-- ===== src/Apply/Owed/Runnable.antt =====
-- owable of internal/apply/owed.go: which steps a turn can leave owed, and which of them still have
-- something to run on.
use regied.Prelude.{
  ◌≡◌, ap, refl, ◌∙◌, inl, inr, String, true, false, ◌||◌, List, [], ◌∷◌, eq_iff, eq_refl, ◌=ˢ◌,
  ◌⋅◌, Option, none, some, has_char, has_prefix, is_some, arith, cut_prefix, cut_prefix-cancel,
  cut_prefix-append, Bool-cases,
}
use regied.Apply.Types.{command_text, join, OwedStep}
use regied.Apply.Services.{Probes}
use regied.Apply.Steps.{udev_trigger_command}
use regied.Apply.Owed.{owable_trigger, owed_command, owable, link_gone, last_arg}

-- The steps that a turn can leave owed, by the name and the arguments of the command: the reload of
-- networkd, of udev's rules and of systemd's units, and a trigger of udev for a link, in whose name is
-- no slash.
pub data CanBeOwed : String → List String → Type 0 where
  networkd_reload : CanBeOwed "networkctl" ("reload" ∷ [])
  rules_reload : CanBeOwed "udevadm" ("control" ∷ "--reload" ∷ [])
  units_reload : CanBeOwed "systemctl" ("daemon-reload" ∷ [])
  link_trigger :
      (link : String)
      → has_char b'/' link ≡ false
      → CanBeOwed "udevadm"
          ("trigger" ∷ "--settle" ∷ "--action=add" ∷ ("/sys/class/net/" ⋅ link) ∷ [])

-- The host has no more the link that a step of udevadm is for.
pub record IsForGoneLink (probes : Probes) (name : String) (args : List String) : Type 0 where
  pub link : String
  pub of_udev : name ≡ "udevadm"
  pub names_it : cut_prefix (last_arg args) "/sys/class/net/" ≡ some link
  pub gone : probes.link_missing link ≡ true

owable_trigger-true :
    (link : String)
    → has_char b'/' link ≡ false
    → owable_trigger (udev_trigger_command link) (some link) ≡ true
unfolding owable_trigger
owable_trigger-true link h = rw (h, eq_refl (command_text (udev_trigger_command link))) refl

starts_as_trigger :
    (link : String)
    → has_prefix (command_text (udev_trigger_command link)) "udevadm trigger " ≡ true
unfolding has_prefix command_text join
starts_as_trigger link =
    let rest = "--settle" ⋅ " " ⋅ "--action=add" ⋅ " " ⋅ "/sys/class/net/" ⋅ link in
    ap is_some (
      cut_prefix-cancel "udevadm" (" " ⋅ "trigger" ⋅ " " ⋅ rest) " trigger "
      ∙ (cut_prefix-cancel " " ("trigger" ⋅ " " ⋅ rest) "trigger "
          ∙ (cut_prefix-cancel "trigger" (" " ⋅ rest) " " ∙ cut_prefix-append " " rest)))

owable-trigger :
    (link : String)
    → owable_trigger (udev_trigger_command link) (some link) ≡ true
    → owable (udev_trigger_command link) ≡ true
unfolding owable
owable-trigger link h =
    elim (Bool-cases (
      text =ˢ "networkctl reload"
      || text =ˢ "udevadm control --reload"
      || text =ˢ "systemctl daemon-reload")) [
        | inl e ↦ rw e refl
        | inr e ↦ rw (e, starts_as_trigger link, cut_prefix-append "/sys/class/net/" link) h
      ]
  where
    text : String
    text = command_text (udev_trigger_command link)

pub CanBeOwed-owable :
    {name : String} {args : List String}
    → CanBeOwed name args
    → owable (record { name = name; args = args; stdin = "" }) ≡ true
unfolding owable command_text join
CanBeOwed-owable networkd_reload = refl
CanBeOwed-owable rules_reload = refl
CanBeOwed-owable units_reload = refl
CanBeOwed-owable (link_trigger link h) = owable-trigger link (owable_trigger-true link h)

pub link_gone-IsForGoneLink :
    (probes : Probes) (o : OwedStep) (l : Option String)
    → cut_prefix (last_arg o.args) "/sys/class/net/" ≡ l
    → link_gone probes (owed_command o) l ≡ true
    → IsForGoneLink probes o.name o.args
unfolding link_gone
link_gone-IsForGoneLink probes o none e h = absurd (cc)
link_gone-IsForGoneLink probes o (some link) e h = record {
  link = link;
  of_udev = ground (arith, eq_iff o.name "udevadm");
  names_it = e;
  gone = ground arith;
}
