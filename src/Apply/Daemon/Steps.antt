-- ===== src/Apply/Daemon/Steps.antt =====
-- internal/apply/serve.go, the select of the loop: each round as a step between the loop's variables and
-- the world, and what a run of the process goes through.
use regied.Prelude.{ℕ, Bool, true, false, some, List, [], ◌∷◌, ◌++◌, ◌≡◌}
use regied.Apply.Daemon.Loop.{Engine, Request, Response, Loop, starting}
use regied.Apply.Daemon.Turns.{run_turn}
use regied.Apply.Daemon.Requests.{handle, revert_trial}

-- What a round selects; a channel that is nil is never selected.
pub data Event : Type 0 where
  resynced notified events_closed requests_closed expired : Event
  requested : Request → Event

-- The variables, the world, and the responses that were sent.
pub record Running (W : Type 0) : Type 0 where
  pub loop : Loop
  pub world : W
  pub sent : List Response

abbrev pub moved : {W : Type 0} → Running W → Loop × W → Running W
moved s (l, w) = record s { loop = l; world = w }

abbrev pub replied : {W : Type 0} → Running W → Response × Loop × W → Running W
replied s (r, l, w) = record { loop = l; world = w; sent = s.sent ++ r ∷ [] }

module _ {W : Type 0} (engine : Engine W) where
  pub data Round : Running W → Event → Running W → Type 0 where
    on_resync : {s : Running W} → Round s resynced (moved s (run_turn engine s.loop s.world))
    on_event :
        {s : Running W}
        → s.loop.events ≡ true
        → Round s notified (moved s (run_turn engine s.loop s.world))
    on_events_closed :
        {s : Running W}
        → s.loop.events ≡ true
        → Round s events_closed (record s { loop = record s.loop { events = false } })
    on_requests_closed :
        {s : Running W}
        → s.loop.requests ≡ true
        → Round s requests_closed (record s { loop = record s.loop { requests = false } })
    on_request :
        {s : Running W} {r : Request}
        → s.loop.requests ≡ true
        → Round s (requested r) (replied s (handle engine r.verb r s.loop s.world))
    on_expiry :
        {s : Running W} {delay : ℕ}
        → s.loop.expiry ≡ some delay
        → Round s expired (
            moved s (
              (revert_trial engine "expired" s.loop s.world).1,
              (revert_trial engine "expired" s.loop s.world).2,
            ))

  -- A process that started in a world and went through the events, the last of them first.
  pub data Ran (w : W) (events requests : Bool) : List Event → Running W → Type 0 where
    began : Ran w events requests [] (
        moved
          (record { loop = starting events requests; world = w; sent = [] })
          (run_turn engine (starting events requests) w))
    then_on :
        {es : List Event} {s t : Running W} {e : Event}
        → Ran w events requests es s
        → Round s e t
        → Ran w events requests (e ∷ es) t
