-- ===== src/Apply/Examples/Planning.antt =====
-- The theorems on what a plan would run, at an input.
use regied.Prelude.{◌≡◌, ◌≢◌, refl, ◌↔◌, inr, true, false, some, [], ◌∷◌, arith, All, has_prefix}
use regied.Apply.Types.{reclaim, update, no_file, Plan}
use regied.Apply.Services.{
  Service, service_files, any_had_before, any_written, any_kind, service_steps, services, change_in,
}
use regied.Apply.Services.Restarts.{calls, restart_reasons, disable_reasons}
use regied.Apply.Steps.{steps}
use regied.Apply.Steps.Order.{InOrder, steps-InOrder}
use regied.Apply.Steps.Quiet.{steps_quiet}
use regied.Apply.Owed.{read_owed, add_owed}
use regied.Apply.Owed.Insert.{ComesBack, add_owed-InOrder, add_owed_complete}
use regied.Apply.Disk.{Disk, disk, one_codec}
use regied.Apply.Examples.{options, plan_of, created, probes, no_rendering, reload, start}

-- dnsmasq with a new configuration beside a unit that stays
abbrev dnsmasq : Service
dnsmasq = record {
  what = "dnsmasq";
  unit = "regied-dnsmasq.service";
  declared = true;
  unit_file = record no_file { had_before = true };
  inputs = record no_file { kind = update; had_before = true } ∷ [];
  active = some true;
}

restart_reasons_example :
    (dnsmasq.declared ≡ true)
    × (any_had_before dnsmasq.inputs ≡ true)
    × (dnsmasq.active ≢ some false)
    × (any_written (service_files dnsmasq) ≡ true)
unfolding calls service_steps
restart_reasons_example = restart_reasons dnsmasq refl

disable_reasons_example :
    (calls "disable" (service_steps dnsmasq) ≡ true)
    ↔ ((dnsmasq.declared ≡ false) × (any_kind reclaim (service_files dnsmasq) ≡ true))
disable_reasons_example = disable_reasons dnsmasq

abbrev with_file : Plan
with_file = plan_of (created "/etc/systemd/network/10-regied-lan.network" "[Match]" ∷ []) [] []

steps-InOrder_example : InOrder 1 (steps options probes with_file no_rendering).0
steps-InOrder_example = steps-InOrder options probes with_file no_rendering

-- dnsmasq's configuration is there as it should be
abbrev settled : Plan
settled =
    plan_of (record no_file { path = "/etc/regied/dnsmasq/dnsmasq.conf"; had_before = true } ∷ [])
      [] []

steps_quiet_example : (steps options probes settled (record no_rendering { dnsmasq = true })).0 ≡ []
unfolding services change_in has_prefix any_had_before
steps_quiet_example =
    steps_quiet options probes settled (record no_rendering { dnsmasq = true }) (refl, tt) tt refl
      refl tt (inr (refl, λ e. cc), tt)

-- the file that an earlier turn left
abbrev left : Disk
left = record {
  files = ("/var/lib/regied/turn/owed.yaml", ("networkctl", 420)) ∷ [];
  commands = [];
}

add_owed-InOrder_example :
    InOrder 3
      (add_owed one_codec disk probes options left (plan_of [] (reload ∷ start ∷ []) [])).steps
unfolding read_owed disk one_codec
add_owed-InOrder_example =
    add_owed-InOrder one_codec disk probes options left (plan_of [] (reload ∷ start ∷ []) []) 3
      (omega arith, tt) (omega arith, (omega arith, tt))

add_owed_complete_example :
    All
      (ComesBack probes
        (add_owed one_codec disk probes options left (plan_of [] (reload ∷ start ∷ []) [])).steps)
      (read_owed one_codec disk options left).0
add_owed_complete_example =
    add_owed_complete one_codec disk probes options left (plan_of [] (reload ∷ start ∷ []) [])
