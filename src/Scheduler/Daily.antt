-- ===== src/Scheduler/Daily.antt =====
-- The daily tasks of scheduler.py: `_last_run` against what was started.
use aruba_network_agent.Prelude.{
  ℕ, ◌+◌, ◌≤◌, ◌<◌, ◌≡◌, refl, sym, subst, Bool, false, ◌&&◌, Option, none, some, List, [], ◌∷◌,
  ◌++◌, nat_eq, nat_Eq, nat_eq_iff, leb, length, keep, if◌then◌else◌, arith, Bool-cases, inl, inr,
}
use aruba_network_agent.Prelude.Dict.{get, put, get-put}
use aruba_network_agent.Scheduler.{
  Interval, Firing, daily, periodic, Scheduler, daily_step, daily_steps, interval_step,
  interval_steps, Moment, tick, ticks, ran_on, on_time,
}

-- The runs of a daily task on a date.
abbrev pub is_run : ℕ → ℕ → Firing → Bool
is_run day fn (daily d f) = nat_eq d day && nat_eq f fn
is_run day fn (periodic c f) = false

abbrev pub runs : ℕ → ℕ → List Firing → ℕ
runs day fn fs = length (keep (is_run day fn) fs)

runs-append :
    (day fn : ℕ) (fs : List Firing) (f : Firing)
    → runs day fn (fs ++ f ∷ []) ≡ runs day fn fs + (if is_run day fn f then 1 else 0)
runs-append day fn [] f = ground arith
runs-append day fn (x ∷ fs) f = ground (arith, runs-append day fn fs f)

-- Up to a date: no task ran twice on a date, none on a later one, and one that ran on this date is
-- marked.
record IsDated (day : ℕ) (s : Scheduler) : Type 0 where
  none_ahead : (fn d : ℕ) → day < d → runs d fn s.fired ≡ 0
  single : (fn d : ℕ) → runs d fn s.fired ≤ 1
  marked : (fn : ℕ) → ran_on day (get fn s.last_run) ≡ false → runs day fn s.fired ≡ 0

later-IsDated : (day later : ℕ) (s : Scheduler) → day ≤ later → IsDated day s → IsDated later s
later-IsDated day later s le h = record {
  none_ahead = λ fn d ahead. h.none_ahead fn d (omega arith);
  single = h.single;
  marked = λ fn unmarked. elim (Bool-cases (nat_eq day later)) [
    | inl e ↦
        let same = (nat_eq_iff day later).0 e in
        subst (λ x. runs x fn s.fired ≡ 0) same
          (h.marked fn (subst (λ x. ran_on x (get fn s.last_run) ≡ false) (sym same) unmarked))
    | inr e ↦ h.none_ahead fn later (ground arith)
  ];
}

fired-IsDated :
    (today fn : ℕ) (s : Scheduler)
    → ran_on today (get fn s.last_run) ≡ false
    → IsDated today s
    → IsDated today
        (record s { last_run = put fn today s.last_run; fired = s.fired ++ daily today fn ∷ [] })
fired-IsDated today fn s new h = record {
  none_ahead = λ j d ahead.
      let old = h.none_ahead j d ahead in ground (arith, runs-append d j s.fired (daily today fn));
  single = λ j d.
      let old = h.single j d in
      let first = h.marked fn new in
      elim (Bool-cases (is_run d j (daily today fn))) [
        | inl e ↦
            let day = nat_eq_iff today d in
            let task = nat_eq_iff fn j in ground (arith, runs-append d j s.fired (daily today fn))
        | inr e ↦ ground (arith, runs-append d j s.fired (daily today fn))
      ];
  marked = λ j unmarked.
      let put' = get-put fn j today s.last_run in
      let old = h.marked j in ground (arith, runs-append today j s.fired (daily today fn));
}

daily_step-IsDated :
    (today since_midnight : ℕ) (t : Option ℕ × ℕ) (s : Scheduler)
    → IsDated today s
    → IsDated today (daily_step today since_midnight t s)
unfolding daily_step
daily_step-IsDated today since_midnight (time, fn) s h =
    elim (Bool-cases (ran_on today (get fn s.last_run))) [
      | inl e ↦ rw e h
      | inr e ↦ rw e (go time (fired-IsDated today fn s e h))
    ]
  where
    go :
        (time : Option ℕ)
        → IsDated today (record s {
          last_run = put fn today s.last_run;
          fired = s.fired ++ daily today fn ∷ [];
        })
        → IsDated today (elim time as (λ _. Scheduler) [
          | none ↦ s
          | some scheduled ↦
              if on_time since_midnight scheduled
              then record s {
                last_run = put fn today s.last_run;
                fired = s.fired ++ daily today fn ∷ [];
              }
              else s
        ])
    go none f = h
    go (some scheduled) f = elim (Bool-cases (on_time since_midnight scheduled)) [
      | inl e ↦ rw e f
      | inr e ↦ rw e h
    ]

daily_steps-IsDated :
    (today since_midnight : ℕ) (ts : List (Option ℕ × ℕ)) (s : Scheduler)
    → IsDated today s
    → IsDated today (daily_steps today since_midnight ts s)
unfolding daily_steps
daily_steps-IsDated today since_midnight [] s h = h
daily_steps-IsDated today since_midnight (t ∷ ts) s h =
    daily_steps-IsDated today since_midnight ts (daily_step today since_midnight t s)
      (daily_step-IsDated today since_midnight t s h)

interval_step-IsDated :
    (day clock : ℕ) (e : ℕ × Interval) (s : Scheduler)
    → IsDated day s
    → IsDated day (interval_step clock e s)
unfolding interval_step
interval_step-IsDated day clock e s h = elim (Bool-cases (leb (e.1.last + e.1.period) clock)) [
  | inl due ↦ rw due (record {
    none_ahead = λ fn d ahead.
        let old = h.none_ahead fn d ahead in
        ground (arith, runs-append d fn s.fired (periodic clock e.0));
    single = λ fn d.
        let old = h.single fn d in ground (arith, runs-append d fn s.fired (periodic clock e.0));
    marked = λ fn unmarked.
        let old = h.marked fn unmarked in
        ground (arith, runs-append day fn s.fired (periodic clock e.0));
  })
  | inr idle ↦ rw idle h
]

interval_steps-IsDated :
    (day clock : ℕ) (es : List (ℕ × Interval)) (s : Scheduler)
    → IsDated day s
    → IsDated day (interval_steps clock es s)
unfolding interval_steps
interval_steps-IsDated day clock [] s h = h
interval_steps-IsDated day clock (e ∷ es) s h =
    interval_steps-IsDated day clock es (interval_step clock e s)
      (interval_step-IsDated day clock e s h)

-- The dates of the ticks do not go back, from `day` on.
abbrev pub InOrder : ℕ → List Moment → Type 0
InOrder day [] = Unit
InOrder day (m ∷ ms) = (day ≤ m.today) × InOrder m.today ms

ticks-single :
    (ms : List Moment) (day fn d : ℕ) (s : Scheduler)
    → InOrder day ms
    → IsDated day s
    → runs d fn (ticks ms s).fired ≤ 1
unfolding ticks tick
ticks-single [] day fn d s o h = h.single fn d
ticks-single (m ∷ ms) day fn d s o h =
    let s' = daily_steps m.today m.since_midnight s.tasks s in
    ticks-single ms m.today fn d (interval_steps m.clock s'.intervals s') o.1 (
      interval_steps-IsDated m.today m.clock s'.intervals s' (
        daily_steps-IsDated m.today m.since_midnight s.tasks s (later-IsDated day m.today s o.0 h)))

-- Over any ticks whose dates do not go back, from a scheduler with whatever tasks that has fired
-- nothing, a function that is registered for a time of the day runs at most once on a date.
pub once_a_day :
    (ms : List Moment) (day fn d : ℕ) (s : Scheduler)
    → InOrder day ms
    → s.fired ≡ []
    → runs d fn (ticks ms s).fired ≤ 1
once_a_day ms day fn d s o none_yet = ticks-single ms day fn d s o (record {
  none_ahead = λ j e ahead. rw none_yet refl;
  single = λ j e. rw none_yet (omega arith);
  marked = λ j unmarked. rw none_yet refl;
})
