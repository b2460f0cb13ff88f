-- ===== src/Apply/Unattended/Examples.antt =====
-- The theorems on the unattended turn, at an input.
use regied.Prelude.{ℕ, ◌*◌, ◌≤◌, ◌≡◌, refl, String, List, [], ◌∷◌, All, get, arith}
use regied.Apply.Types.{Plan, processes, networkd, describe}
use regied.Apply.Unattended.{Retry, second, backoff, unattended_plan}
use regied.Apply.Unattended.Allowed.{Unattends, unattended_plan-Unattends}
use regied.Apply.Unattended.Backoff.{IsOnce, unattended_plan-IsOnce}
use regied.Apply.Unattended.Delay.{backoff_grows}
use regied.Apply.Examples.{plan_of, command_of}

-- noon, in a world that only tells the time
abbrev clock : Unit {0} → ℕ × Unit {0}
clock w = (43200 * second, w)

abbrev clock_text : ℕ → String
clock_text n = "later"

-- dnsmasq is to be restarted, networkd to be reloaded, and a link to be set up once more
abbrev computed : Plan
computed =
    plan_of []
      (command_of networkd "networkctl" ("reload" ∷ [])
        ∷ command_of networkd "udevadm" ("control" ∷ "--reload" ∷ [])
        ∷ command_of processes "systemctl" ("restart" ∷ "regied-dnsmasq.service" ∷ [])
        ∷ [])
      []

abbrev retries : List (String × Retry)
retries =
    ("udevadm control --reload", record { attempts = 3; next = 43201 * second })
    ∷ ("networkctl reload", record { attempts = 1; next = 43190 * second })
    ∷ []

unattended_run :
    (unattended_plan clock clock_text computed retries tt).0.steps
    ≡ command_of networkd "networkctl" ("reload" ∷ []) ∷ []
unfolding unattended_plan get describe
unattended_run = refl

unattended_plan-Unattends_example :
    Unattends clock clock_text computed (unattended_plan clock clock_text computed retries tt).0
unattended_plan-Unattends_example = unattended_plan-Unattends clock clock_text computed retries tt

unattended_plan-IsOnce_example :
    All
      (IsOnce clock clock_text
        (43200 * second)
        (λ w. refl)
        retries
        (unattended_plan clock clock_text computed retries tt).1)
      (unattended_plan clock clock_text computed retries tt).0.steps
unattended_plan-IsOnce_example =
    unattended_plan-IsOnce clock clock_text (43200 * second) (λ w. refl) retries computed tt

backoff_grows_example :
    (second ≤ backoff 2) × (backoff 2 ≤ backoff 30) × (backoff 30 ≤ 256 * second)
backoff_grows_example = backoff_grows 2 30 (omega arith)
