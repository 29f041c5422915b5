-- ===== src/Poller/Health.antt =====
-- What a poll makes of the vital fields of its switch.
use aruba_network_agent.Prelude.{
  ℕ, ◌+◌, String, ◌≡◌, ◌∙◌, Bool, true, false, ◌||◌, some, [], ◌∷◌, arith, string_Eq, leb,
  if◌then◌else◌, Option-cases, inl, inr,
}
use aruba_network_agent.Prelude.Dict.{get}
use aruba_network_agent.State.{
  SwitchState, AgentState, set_attrs, update_switch, new_down, new_failures, new_event, poll_failed,
}
use aruba_network_agent.Poller.Data.{
  Monitor, Network, Alert, restored, down, restored_report, down_report,
}
use aruba_network_agent.Poller.Probe.{Probed}
use aruba_network_agent.Poller.Alerts.{maybe_send_alert}
use aruba_network_agent.Poller.Poll.{
  shown_name, note_success, on_success, on_failure, is_unmanaged, probed, judge, poll,
}
use aruba_network_agent.Poller.Keeps.{
  vitals, maybe_send_alert-vitals, Harmless, probe-Harmless, written-vitals, note_success-vitals,
  down-vitals,
}

-- The vital fields that a probe's outcome leads to.
abbrev pub next_vitals : ℕ → Bool → Bool → ℕ → Bool × ℕ × Bool
next_vitals threshold ok is_down failures =
    if ok then (false, 0, false) else (leb threshold (failures + 1) || is_down, failures + 1, false)

on_success-vitals :
    (now : ℕ) (snmp_ok : Bool) (net : Network) (sw : SwitchState) (m : Monitor) (s : AgentState)
    → get m.name s.switches ≡ some sw
    → vitals m.name (on_success now snmp_ok net sw m s).state ≡ some (false, 0, sw.unmanaged)
on_success-vitals now snmp_ok net sw m s e =
    let noted = note_success now snmp_ok net m s in
    let n = note_success-vitals now snmp_ok net m s sw e in
    let d = down-vitals m.name false sw.is_down sw.unmanaged 0 noted n in
    let a =
      maybe_send_alert-vitals now
        (record {
          kind = restored;
          label = shown_name sw m;
          body = restored_report m.host (shown_name sw m);
        })
        m (update_switch m.name (new_down false ∷ []) noted) in
    unfold on_success in ground arith

on_failure-vitals :
    (now : ℕ) (sw : SwitchState) (m : Monitor) (s : AgentState)
    → get m.name s.switches ≡ some sw
    → vitals m.name (on_failure now sw m s).state
      ≡ some
          (leb m.failure_threshold (sw.failures + 1) || sw.is_down, sw.failures + 1, sw.unmanaged)
on_failure-vitals now sw m s e =
    let noted =
      update_switch m.name
        (new_failures (sw.failures + 1) ∷ new_event (poll_failed (sw.failures + 1) now) ∷ []) s in
    let w : vitals m.name noted ≡ some (sw.is_down, sw.failures + 1, sw.unmanaged) =
      unfold set_attrs in written-vitals m.name _ s sw e in
    let d = down-vitals m.name true sw.is_down sw.unmanaged (sw.failures + 1) noted w in
    let a =
      maybe_send_alert-vitals now
        (record {
          kind = down;
          label = shown_name sw m;
          body = down_report m.host (shown_name sw m) (sw.failures + 1) m.poll_interval;
        })
        m (update_switch m.name (new_down true ∷ []) noted) in
    unfold on_failure in ground arith

judge-vitals :
    (now : ℕ) (net : Network) (p : Probed) (d : Bool) (f : ℕ)
    → vitals p.monitor.name p.state ≡ some (d, f, false)
    → vitals p.monitor.name (judge now net p).state
      ≡ some (next_vitals p.monitor.failure_threshold p.ok d f)
judge-vitals now net p d f h = elim (Option-cases (get p.monitor.name p.state.switches)) [
  | inl e ↦ unfold vitals in ground arith
  | inr (sw, e) ↦
      let same : (sw.is_down ≡ d) × (sw.failures ≡ f) × (sw.unmanaged ≡ false) =
        unfold vitals in ground arith in
      let up = on_success-vitals now p.snmp_ok net sw p.monitor p.state e in
      let fail = on_failure-vitals now sw p.monitor p.state e in unfold judge in ground arith
]

managed :
    (k : String) (s : AgentState) (d : Bool) (f : ℕ)
    → vitals k s ≡ some (d, f, false)
    → is_unmanaged (get k s.switches) ≡ false
unfolding vitals
managed k s d f h = ground arith

-- The poll of a managed switch judges a probe that has left the vital fields alone.
pub poll-judge :
    (now : ℕ) (net : Network) (m : Monitor) (s : AgentState) (d : Bool) (f : ℕ)
    → vitals m.name s ≡ some (d, f, false)
    → let p = probed now net m s in
      (vitals p.monitor.name p.state ≡ some (d, f, false))
      × (poll now net m s ≡ judge now net p)
      × (p.monitor.failure_threshold ≡ m.failure_threshold)
      × (p.monitor.name ≡ m.name)
poll-judge now net m s d f h =
    let p = probed now net m s in
    let safe : Harmless m s p = unfold probed in probe-Harmless now net _ m s in
    let name : p.monitor.name ≡ m.name = safe.1.0 in
    let free = managed m.name s d f h in
    (rw name (safe.0 ∙ h), unfold poll in ground arith, safe.1.2, name)

-- One poll of a managed switch: a success makes it UP with no failures, a failure counts one more
-- and makes it DOWN once the count reaches the threshold.
pub poll-vitals :
    (now : ℕ) (net : Network) (m : Monitor) (s : AgentState) (d : Bool) (f : ℕ)
    → vitals m.name s ≡ some (d, f, false)
    → vitals m.name (poll now net m s).state
      ≡ some (next_vitals m.failure_threshold (probed now net m s).ok d f)
poll-vitals now net m s d f h =
    let (before, same, threshold, name) = poll-judge now net m s d f h in
    let after = judge-vitals now net (probed now net m s) d f before in
    rw same (cc (after, name, threshold))

maybe_send_alert-settings :
    (now : ℕ) (a : Alert) (m : Monitor) (s : AgentState)
    → let m' = (maybe_send_alert now a m s).monitor in
      (m'.name ≡ m.name) × (m'.failure_threshold ≡ m.failure_threshold)
unfolding maybe_send_alert
maybe_send_alert-settings now a m s = ground arith

judge-settings :
    (now : ℕ) (net : Network) (p : Probed)
    → let m' = (judge now net p).monitor in
      (m'.name ≡ p.monitor.name) × (m'.failure_threshold ≡ p.monitor.failure_threshold)
judge-settings now net p = elim (Option-cases (get p.monitor.name p.state.switches)) [
  | inl e ↦ unfold judge in ground arith
  | inr (sw, e) ↦
      let m = p.monitor in
      let shown = shown_name sw m in
      let f = sw.failures + 1 in
      let up =
        maybe_send_alert-settings now
          (record { kind = restored; label = shown; body = restored_report m.host shown }) m
          (update_switch m.name (new_down false ∷ []) (note_success now p.snmp_ok net m p.state)) in
      let fail =
        maybe_send_alert-settings now
          (record { kind = down; label = shown; body = down_report m.host shown f m.poll_interval })
          m
          (update_switch m.name (new_down true ∷ [])
            (update_switch m.name (new_failures f ∷ new_event (poll_failed f now) ∷ []) p.state)) in
      unfold judge on_success on_failure in ground arith
]

-- No poll changes whom its monitor watches, nor its threshold.
pub poll-settings :
    (now : ℕ) (net : Network) (m : Monitor) (s : AgentState)
    → let m' = (poll now net m s).monitor in
      (m'.name ≡ m.name) × (m'.failure_threshold ≡ m.failure_threshold)
poll-settings now net m s =
    let p = probed now net m s in
    let safe : Harmless m s p = unfold probed in probe-Harmless now net _ m s in
    let j = judge-settings now net p in unfold poll in ground arith
