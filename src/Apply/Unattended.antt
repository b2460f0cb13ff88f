-- ===== src/Apply/Unattended.antt =====
-- unattendedPlan of internal/apply/turn.go: what of a plan a turn runs that nobody asked for, under a
-- backoff for each step. The clock is asked where the code asks it, and its time, in nanoseconds, is
-- printed by `clock_text`, which stands for the standard library's format of a time.
pub mod Forbidden
pub mod Allowed
pub mod Delay
pub mod Backoff
mod Examples
use regied.Prelude.{
  ℕ, suc, ◌+◌, ◌-◌, ◌*◌, ◌^◌, min, String, Bool, true, false, ◌&&◌, ◌||◌, Option, none, some, List,
  [], ◌∷◌, ◌++◌, map, ◌=ˢ◌, ◌⋅◌, if◌then◌else◌, ltb, mem, get, put, decimal,
}
use regied.Apply.Types.{
  ChangeKind, reclaim, kind_eq, FileChange, StepKind, Command, Step, Plan, describe,
}

pub record Retry : Type 0 where
  pub attempts : ℕ
  pub next : ℕ

abbrev pub is_remove : StepKind → Bool
is_remove StepKind.remove = true
is_remove _ = false

abbrev first_is : String → List String → Bool
first_is s [] = false
first_is s (b ∷ _) = b =ˢ s

-- whether one of the arguments takes something down; `args` is the whole list
takes_down : List String → List String → Bool
takes_down args [] = false
takes_down args (a ∷ more) =
    let rest = takes_down args more in
    if a =ˢ "restart" || (a =ˢ "disable" || (a =ˢ "--now" && first_is "disable" args))
    then true
    else rest

-- unattendedForbidden
unfoldable pub is_forbidden : Step → Bool
unfolding takes_down
is_forbidden s =
    if is_remove s.kind
    then true
    else if s.command.name =ˢ "systemctl"
    then takes_down s.command.args s.command.args
    else false

abbrev pub second : ℕ
second = 1000000000

-- the delay after the attempt of that number, which is at least one: it is counted before this is asked
unfoldable pub backoff : ℕ → ℕ
backoff attempts =
    let delay = second * 2 ^ min (attempts - 1) 8 in
    if ltb (300 * second) delay then 300 * second else delay

-- what the loop has come to: the plan's steps and failures, and the engine's retries
pub record Pass (W : Type 0) : Type 0 where
  pub steps : List Step
  pub failing : List String
  pub retries : List (String × Retry)
  pub present : List String
  pub world : W

abbrev known : Option Retry → Retry
known none = record { attempts = 0; next = 0 }
known (some r) = r

module _ {W : Type 0} (clock : W → ℕ × W) (clock_text : ℕ → String) where
  fail : String → Pass W → Pass W
  fail line p = record p { failing = p.failing ++ line ∷ [] }

  -- the step is in the plan, and is tried again no earlier than after the delay
  attempt_step : Step → String → Retry → Pass W → Pass W
  unfolding put backoff
  attempt_step s key r p =
      let attempts = suc r.attempts in
      let (now, w') = clock p.world in
      record p {
        steps = p.steps ++ s ∷ [];
        retries = put key (record { attempts = attempts; next = now + backoff attempts }) p.retries;
        world = w';
      }

  pub held_line : String → Retry → String
  unfolding decimal
  held_line key r =
      key ⋅ ": retry backoff level " ⋅ decimal r.attempts ⋅ " until " ⋅ clock_text r.next

  -- the question whether the step's time has come, if it was tried before
  after_known : Step → String → Option Retry → Pass W → Pass W
  unfolding attempt_step fail held_line
  after_known s key none p = attempt_step s key (known none) p
  after_known s key (some r) p =
      let (now, w') = clock p.world in
      if ltb now r.next
      then fail (held_line key r) (record p { world = w' })
      else attempt_step s key r (record p { world = w' })

  one_step : Step → Pass W → Pass W
  unfolding is_forbidden fail after_known get describe
  one_step s p =
      if is_forbidden s
      then fail (s.reason ⋅ ": an unattended turn does not take down something that is up") p
      else let key = describe s in
        after_known s key (get key p.retries) (record p { present = key ∷ p.present })

  all_steps : List Step → Pass W → Pass W
  unfolding one_step
  all_steps [] p = p
  all_steps (s ∷ ss) p = all_steps ss (one_step s p)

-- delete(e.retries, key) for every key that is not present
unfoldable pub keep_present : List String → List (String × Retry) → List (String × Retry)
keep_present present [] = []
keep_present present ((k, r) ∷ rs) =
    let rest = keep_present present rs in if mem k present then (k, r) ∷ rest else rest

-- a file that would be reclaimed while staging waits for a turn that was asked for
abbrev pub deferring : FileChange → FileChange
deferring f = if kind_eq f.kind reclaim then record f { deferred = true } else f

module _ {W : Type 0} (clock : W → ℕ × W) (clock_text : ℕ → String) where
  unfoldable pub pass_over : Plan → List (String × Retry) → W → Pass W
  unfolding all_steps
  pass_over plan retries w =
      all_steps clock clock_text plan.steps
        (record { steps = []; failing = plan.failing; retries = retries; present = []; world = w })

  -- Engine.unattendedPlan, with the retries that it leaves
  unfoldable pub unattended_plan :
      Plan → List (String × Retry) → W → Plan × List (String × Retry) × W
  unfolding pass_over keep_present
  unattended_plan plan retries w =
      let p = pass_over plan retries w in
      (
        record plan { files = map deferring plan.files; steps = p.steps; failing = p.failing },
        keep_present p.present p.retries,
        p.world,
      )
