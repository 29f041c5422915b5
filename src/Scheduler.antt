-- ===== src/Scheduler.antt =====
-- `Scheduler` of aruba_agent/scheduler.py. A function is its `id`. A tick is given the local date, the
-- microseconds since midnight and the clock in seconds; a time text is `none` where it does not parse,
-- and its microseconds since midnight otherwise. `fired` is what threads were started for, oldest first.
pub mod Daily
pub mod Tests
use aruba_network_agent.Prelude.{
  ℕ, ◌+◌, ◌*◌, Bool, true, false, not, ◌&&◌, ◌||◌, Option, none, some, List, [], ◌∷◌, ◌++◌, nat_eq,
  nat_Eq, leb, if◌then◌else◌,
}
use aruba_network_agent.Prelude.Dict.{Dict, get, put}

-- An entry of `_intervals`: its period and the clock when it last ran.
pub record Interval : Type 0 where
  pub period : ℕ
  pub last : ℕ

-- What was started: a daily task on a date, or an interval task at a clock time.
pub data Firing : Type 0 where
  daily periodic : ℕ → ℕ → Firing

pub record Scheduler : Type 0 where
  pub tasks : List (Option ℕ × ℕ)
  pub last_run : Dict ℕ ℕ
  pub intervals : Dict ℕ Interval
  pub fired : List Firing

-- `__init__`
unfoldable pub new_scheduler : Scheduler
new_scheduler = record { tasks = []; last_run = []; intervals = []; fired = [] }

-- `add`
unfoldable pub add_daily : Option ℕ → ℕ → Scheduler → Scheduler
add_daily time_str fn s = record s { tasks = s.tasks ++ (time_str, fn) ∷ [] }

-- `add_interval`
unfoldable pub add_interval : ℕ → ℕ → ℕ → Bool → Scheduler → Scheduler
add_interval clock interval_seconds fn run_at_start s = record s {
  intervals =
      put fn (record { period = interval_seconds; last = if run_at_start then 0 else clock })
        s.intervals;
}

-- `_TOLERANCE_MINUTES` in microseconds
abbrev pub tolerance : ℕ
tolerance = 1 * 60 * 1000000

-- `abs((now - scheduled).total_seconds()) <= _TOLERANCE_MINUTES * 60`, both on one date
abbrev pub on_time : ℕ → ℕ → Bool
on_time since_midnight scheduled =
    leb since_midnight (scheduled + tolerance) && leb scheduled (since_midnight + tolerance)

abbrev pub ran_on : ℕ → Option ℕ → Bool
ran_on today none = false
ran_on today (some d) = nat_eq d today

-- The body of the first loop of `_tick`.
unfoldable pub daily_step : ℕ → ℕ → Option ℕ × ℕ → Scheduler → Scheduler
daily_step today since_midnight task s =
    if ran_on today (get task.1 s.last_run) then s else elim task.0 [
      | none ↦ s
      | some scheduled ↦
          if on_time since_midnight scheduled
          then record s {
            last_run = put task.1 today s.last_run;
            fired = s.fired ++ daily today task.1 ∷ [];
          }
          else s
    ]

unfoldable pub daily_steps : ℕ → ℕ → List (Option ℕ × ℕ) → Scheduler → Scheduler
unfolding daily_step
daily_steps today since_midnight [] s = s
daily_steps today since_midnight (t ∷ ts) s =
    daily_steps today since_midnight ts (daily_step today since_midnight t s)

-- The body of the second loop, for one entry of the list that was taken before it.
unfoldable pub interval_step : ℕ → ℕ × Interval → Scheduler → Scheduler
interval_step clock e s =
    if leb (e.1.last + e.1.period) clock
    then record s {
      intervals = put e.0 (record { period = e.1.period; last = clock }) s.intervals;
      fired = s.fired ++ periodic clock e.0 ∷ [];
    }
    else s

unfoldable pub interval_steps : ℕ → List (ℕ × Interval) → Scheduler → Scheduler
unfolding interval_step
interval_steps clock [] s = s
interval_steps clock (e ∷ es) s = interval_steps clock es (interval_step clock e s)

-- `_tick`
pub record Moment : Type 0 where
  pub today : ℕ
  pub since_midnight : ℕ
  pub clock : ℕ

unfoldable pub tick : Moment → Scheduler → Scheduler
unfolding daily_steps interval_steps
tick now s =
    let s' = daily_steps now.today now.since_midnight s.tasks s in
    interval_steps now.clock s'.intervals s'

unfoldable pub ticks : List Moment → Scheduler → Scheduler
unfolding tick
ticks [] s = s
ticks (m ∷ ms) s = ticks ms (tick m s)
