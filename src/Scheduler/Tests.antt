-- ===== src/Scheduler/Tests.antt =====
-- The theorem on scheduler.py at a task for 02:00 and an hourly one, over three ticks in a minute.
use aruba_network_agent.Prelude.{◌≤◌, refl, none, some, List, [], ◌∷◌, arith}
use aruba_network_agent.Scheduler.{Scheduler, Moment, ticks}
use aruba_network_agent.Scheduler.Daily.{runs, InOrder, once_a_day}

abbrev nightly : Scheduler
nightly = record {
  tasks = (some 7200000000, 1) ∷ (none, 2) ∷ [];
  last_run = [];
  intervals = (3, record { period = 3600; last = 0 }) ∷ [];
  fired = [];
}

abbrev minute : List Moment
minute =
    record { today = 20; since_midnight = 7150000000; clock = 90000 }
    ∷ record { today = 20; since_midnight = 7210000000; clock = 90060 }
    ∷ record { today = 21; since_midnight = 7190000000; clock = 176400 }
    ∷ []

minute-InOrder : InOrder 20 minute
minute-InOrder = ground arith

once_a_day_example : runs 20 1 (ticks minute nightly).fired ≤ 1
once_a_day_example = once_a_day minute 20 1 20 nightly minute-InOrder refl
