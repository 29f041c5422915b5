-- ===== src/Poller/Transitions.antt =====
-- `_poll` over a run of cycles: the outcomes, the failure count and the alerts.
use aruba_network_agent.Prelude.{
  ℕ, ◌+◌, ◌<◌, ◌≡◌, refl, ◌∙◌, subst, ◌⊎◌, Bool, true, false, some, List, [], ◌∷◌, arith, leb,
  if◌then◌else◌, string_Eq, Option-cases, inl, inr,
}
use aruba_network_agent.Prelude.Dict.{get}
use aruba_network_agent.State.{
  AgentState, update_switch, new_down, new_failures, new_event, poll_failed,
}
use aruba_network_agent.Poller.Data.{
  Monitor, Network, down, restored, Sent, sent_kind, Alert, down_report, restored_report,
}
use aruba_network_agent.Poller.Probe.{Probed}
use aruba_network_agent.Poller.Alerts.{maybe_send_alert}
use aruba_network_agent.Poller.Poll.{
  probed, poll, note_success, shown_name, judge, on_success, on_failure,
}
use aruba_network_agent.Poller.Keeps.{vitals}
use aruba_network_agent.Poller.Health.{next_vitals, poll-judge, poll-vitals, poll-settings}

-- The cycles of a monitor, each at a time with what the network answers, and their outcomes.
unfoldable pub cycles : List (ℕ × Network) → Monitor → AgentState → AgentState
cycles [] m s = s
cycles (c ∷ cs) m s = let a = poll c.0 c.1 m s in cycles cs a.monitor a.state

unfoldable pub outcomes : List (ℕ × Network) → Monitor → AgentState → List Bool
outcomes [] m s = []
outcomes (c ∷ cs) m s =
    let a = poll c.0 c.1 m s in (probed c.0 c.1 m s).ok ∷ outcomes cs a.monitor a.state

-- The failures since the last success, after `n` before.
unfoldable pub streak : ℕ → List Bool → ℕ
streak n [] = n
streak n (ok ∷ rest) = streak (if ok then 0 else n + 1) rest

streak_step :
    (threshold n : ℕ) (ok : Bool)
    → 0 < threshold
    → let n' = if ok then 0 else n + 1 in
      some (next_vitals threshold ok (leb threshold n) n) ≡ some (leb threshold n', n', false)
streak_step threshold n ok pos = ground arith

streak-vitals :
    (cs : List (ℕ × Network)) (m : Monitor) (s : AgentState) (n : ℕ)
    → 0 < m.failure_threshold
    → vitals m.name s ≡ some (leb m.failure_threshold n, n, false)
    → let n' = streak n (outcomes cs m s) in
      vitals m.name (cycles cs m s) ≡ some (leb m.failure_threshold n', n', false)
unfolding streak outcomes cycles
streak-vitals [] m s n pos h = h
streak-vitals ((now, net) ∷ cs) m s n pos h =
    let a = poll now net m s in
    let ok = (probed now net m s).ok in
    let next = poll-vitals now net m s (leb m.failure_threshold n) n h in
    let same = poll-settings now net m s in
    let n' = if ok then 0 else n + 1 in
    let name : a.monitor.name ≡ m.name = same.0 in
    let threshold : a.monitor.failure_threshold ≡ m.failure_threshold = same.1 in
    let start : vitals a.monitor.name a.state
        ≡ some (leb a.monitor.failure_threshold n', n', false) =
      rw (name, threshold) (next ∙ streak_step m.failure_threshold n ok pos) in
    let rest = streak-vitals cs a.monitor a.state n' (rw threshold pos) start in
    cc (rest, name, threshold)

-- After any run of polls of a managed switch that starts UP with no failures, the failure count is
-- the number of failed polls since the last success, and the switch is DOWN exactly while that
-- number has reached the threshold.
pub down_iff_streak :
    (cs : List (ℕ × Network)) (m : Monitor) (s : AgentState)
    → 0 < m.failure_threshold
    → vitals m.name s ≡ some (false, 0, false)
    → let n = streak 0 (outcomes cs m s) in
      vitals m.name (cycles cs m s) ≡ some (leb m.failure_threshold n, n, false)
down_iff_streak cs m s pos h = streak-vitals cs m s 0 pos (ground arith)

-- What is sent when a switch goes from UP or DOWN to UP or DOWN: nothing, or one alert that names
-- the change.
abbrev pub Announces : Bool → Bool → List Sent → Type 0
Announces before after [] = Unit
Announces before after (x ∷ []) =
    ((sent_kind x ≡ down) × (before ≡ false) × (after ≡ true))
    ⊎ ((sent_kind x ≡ restored) × (before ≡ true) × (after ≡ false))
Announces before after (x ∷ y ∷ rest) = ⊥

sent-Announces :
    (now : ℕ) (a : Alert) (m : Monitor) (s : AgentState) (before after : Bool)
    → ((a.kind ≡ down) × (before ≡ false) × (after ≡ true))
      ⊎ ((a.kind ≡ restored) × (before ≡ true) × (after ≡ false))
    → Announces before after (maybe_send_alert now a m s).sent
unfolding maybe_send_alert
sent-Announces now a m s before after h = ground arith

judge-Announces :
    (now : ℕ) (net : Network) (p : Probed) (d : Bool) (f : ℕ)
    → vitals p.monitor.name p.state ≡ some (d, f, false)
    → Announces d (next_vitals p.monitor.failure_threshold p.ok d f).0 (judge now net p).sent
judge-Announces now net p d f h = elim (Option-cases (get p.monitor.name p.state.switches)) [
  | inl e ↦ unfold judge in ground arith
  | inr (sw, e) ↦
      let same : (sw.is_down ≡ d) × (sw.failures ≡ f) = unfold vitals in ground arith in
      let m = p.monitor in
      let shown = shown_name sw m in
      let n = sw.failures + 1 in
      let up =
        sent-Announces now
          (record { kind = restored; label = shown; body = restored_report m.host shown }) m
          (update_switch m.name (new_down false ∷ []) (note_success now p.snmp_ok net m p.state))
          true false (inr (refl, refl, refl)) in
      let fail =
        sent-Announces now
          (record { kind = down; label = shown; body = down_report m.host shown n m.poll_interval })
          m
          (update_switch m.name (new_down true ∷ [])
            (update_switch m.name (new_failures n ∷ new_event (poll_failed n now) ∷ []) p.state))
          false true (inl (refl, refl, refl)) in
      unfold judge on_success on_failure in ground arith
]

-- A poll of a managed switch sends no alert, or one "down" when it has just made the switch DOWN, or
-- one "restored" when it has just made it UP.
pub poll-Announces :
    (now : ℕ) (net : Network) (m : Monitor) (s : AgentState) (d d' : Bool) (f f' : ℕ)
    → vitals m.name s ≡ some (d, f, false)
    → vitals m.name (poll now net m s).state ≡ some (d', f', false)
    → Announces d d' (poll now net m s).sent
poll-Announces now net m s d d' f f' h h' =
    let (before, same, threshold, _) = poll-judge now net m s d f h in
    let a = judge-Announces now net (probed now net m s) d f before in
    let next = poll-vitals now net m s d f h in
    let after : d' ≡ (next_vitals m.failure_threshold (probed now net m s).ok d f).0 =
      ground arith in
    rw (same, after)
      (subst
        (λ t.
          Announces d (next_vitals t (probed now net m s).ok d f).0
            (judge now net (probed now net m s)).sent)
        threshold a)
