-- ===== src/Apply/Services/Restarts.antt =====
-- When a supervised process is started, restarted or stopped.
use regied.Prelude.{
  String, ◌≡◌, ◌≢◌, ◌↔◌, Bool, true, false, some, List, [], ◌∷◌, arith, ◌=ˢ◌, if◌then◌else◌,
}
use regied.Apply.Types.{reclaim, Step}
use regied.Apply.Services.{
  Service, service_files, any_kind, any_had_before, any_written, service_steps,
}

abbrev first_arg : List String → String
first_arg [] = ""
first_arg (a ∷ _) = a

-- whether one of the steps calls systemctl with the verb
unfoldable pub calls : String → List Step → Bool
calls verb [] = false
calls verb (s ∷ ss) =
    let rest = calls verb ss in if first_arg s.command.args =ˢ verb then true else rest

-- A process is restarted only if it is declared, one of its files was on the host before, it is not
-- known to be down, and the plan writes its unit or another file that it reads.
pub restart_reasons :
    (s : Service)
    → calls "restart" (service_steps s) ≡ true
    → (s.declared ≡ true)
      × (any_had_before s.inputs ≡ true)
      × (s.active ≢ some false)
      × (any_written (service_files s) ≡ true)
unfolding calls service_steps
restart_reasons s h = ground arith

-- A process is stopped exactly if it is not declared and the plan takes one of its files away.
pub disable_reasons :
    (s : Service)
    → (calls "disable" (service_steps s) ≡ true)
      ↔ ((s.declared ≡ false) × (any_kind reclaim (service_files s) ≡ true))
unfolding calls service_steps
disable_reasons s = ground arith

-- A declared process of which nothing is written, that was on the host before and is not known to
-- be down is left alone.
pub service_steps_quiet :
    (s : Service)
    → s.declared ≡ true
    → any_had_before s.inputs ≡ true
    → s.active ≢ some false
    → any_written (service_files s) ≡ false
    → service_steps s ≡ []
unfolding service_steps
service_steps_quiet s d h a w = ground arith
