-- ===== src/Thresholds/Runner.antt =====
-- `ThresholdEvalTask` of tasks/threshold_eval.py: the periodic run, and the emails over any runs.
use aruba_network_agent.Prelude.{
  ℕ, ◌+◌, String, ◌≡◌, refl, Bool, false, not, ◌||◌, Option, none, some, List, [], ◌∷◌, ◌++◌, ◌==◌,
  string_Eq, pair_Eq, if◌then◌else◌, arith, keep, length, Bool-cases, inl, inr,
}
use aruba_network_agent.Prelude.Dict.{get}
use aruba_network_agent.Thresholds.{
  Comparison, Rule, Sample, Key, AlertEvent, is_fire, Breaches, is_empty, evaluate,
}
use aruba_network_agent.Thresholds.Alternation.{
  Alternates, Alternates-append, events_of, event_key, firing, evaluate-Alternates,
}

-- The task; `sent` is what the notifier was handed, oldest first.
pub record Task (V : Type 0) : Type 0 where
  pub enabled : Bool
  pub has_rules : Bool
  pub running : Bool
  pub breaches : Breaches V
  pub last_run : ℕ
  pub fired_total : ℕ
  pub sent : List (AlertEvent V)

-- `src() or []`; `none` is a source that raises.
abbrev pub gather : {V : Type 0} → List (Option (List (Sample V))) → List (Sample V)
gather [] = []
gather (none ∷ rest) = gather rest
gather (some ss ∷ rest) = ss ++ gather rest

abbrev pub fires : {V : Type 0} → List (AlertEvent V) → ℕ
fires es = length (keep (λ e. is_fire e.type) es)

-- One call of `run`: its time, what `list_rules(enabled_only=True)` answers, and the sources.
abbrev pub Job : Type 0 → Type 0
Job V = ℕ × (List (Rule V) × List (Option (List (Sample V))))

module _ {V : Type 0} ⦃order : Comparison V⦄ where
  -- `__init__`
  unfoldable pub new_task : Bool → Bool → Task V
  new_task enabled has_rules = record {
    enabled = enabled;
    has_rules = has_rules;
    running = false;
    breaches = [];
    last_run = 0;
    fired_total = 0;
    sent = [];
  }

  -- `run`; the lock `_running` is free again when it returns.
  unfoldable pub run_task : (String → String → Bool) → Job V → Task V → Task V
  run_task in_network job t =
      if not t.enabled || not t.has_rules || t.running || is_empty job.1.0
      then t
      else let x = evaluate in_network job.0 job.1.0 (gather job.1.1) t.breaches in
        record t {
          breaches = x.0;
          last_run = job.0;
          fired_total = t.fired_total + fires x.1;
          sent = t.sent ++ x.1;
        }

  unfoldable pub run_tasks : (String → String → Bool) → List (Job V) → Task V → Task V
  unfolding run_task
  run_tasks in_network [] t = t
  run_tasks in_network (job ∷ rest) t = run_tasks in_network rest (run_task in_network job t)

  fires-append : (es fs : List (AlertEvent V)) → fires (es ++ fs) ≡ fires es + fires fs
  fires-append [] fs = omega arith
  fires-append (e ∷ es) fs = ground (arith, fires-append es fs)

  -- The emails of each key alternate from a first ALERT on, and the ALERTs are counted.
  pub record IsCounted (t : Task V) : Type 0 where
    pub alternating : (k : Key) → Alternates false (events_of k t.sent) (firing k t.breaches)
    pub counted : t.fired_total ≡ fires t.sent

  run_task-IsCounted :
      (in_network : String → String → Bool) (job : Job V) (t : Task V)
      → IsCounted t
      → IsCounted (run_task in_network job t)
  unfolding run_task
  run_task-IsCounted in_network job t h =
      elim (Bool-cases (not t.enabled || not t.has_rules || t.running || is_empty job.1.0)) [
        | inl off ↦ rw off h
        | inr on ↦
            let x = evaluate in_network job.0 job.1.0 (gather job.1.1) t.breaches in
            rw on (record {
              alternating = λ k.
                  Alternates-append (λ e. event_key e == k) t.sent x.1 false (firing k t.breaches)
                    (firing k x.0) (h.alternating k)
                    (evaluate-Alternates in_network k job.0 job.1.0 (gather job.1.1) t.breaches);
              counted = omega (arith, h.counted, fires-append t.sent x.1);
            })
      ]

  run_tasks-IsCounted :
      (in_network : String → String → Bool) (jobs : List (Job V)) (t : Task V)
      → IsCounted t
      → IsCounted (run_tasks in_network jobs t)
  unfolding run_tasks
  run_tasks-IsCounted in_network [] t h = h
  run_tasks-IsCounted in_network (job ∷ jobs) t h =
      run_tasks-IsCounted in_network jobs (run_task in_network job t)
        (run_task-IsCounted in_network job t h)

  -- Over any runs of the task, with whatever rules, samples and failing sources: for each rule,
  -- device and instance the emails are an ALERT, a RECOVERED, an ALERT and so on, the alert is
  -- active exactly if the last of them is an ALERT, and `fired_total` is the number of ALERTs.
  pub emails_alternate :
      (in_network : String → String → Bool) (jobs : List (Job V)) (enabled has_rules : Bool)
      → IsCounted (run_tasks in_network jobs (new_task enabled has_rules))
  unfolding new_task
  emails_alternate in_network jobs enabled has_rules =
      run_tasks-IsCounted in_network jobs (new_task enabled has_rules)
        (record { alternating = λ k. unfold get in refl; counted = refl })
