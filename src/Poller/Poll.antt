-- ===== src/Poller/Poll.antt =====
-- `_poll`: one cycle of a monitor. `now` is the clock during the cycle.
use aruba_network_agent.Prelude.{
  ℕ, ◌+◌, String, Bool, true, false, not, ◌&&◌, ◌||◌, Option, none, some, [], ◌∷◌, ◌==◌, string_Eq,
  leb, if◌then◌else◌,
}
use aruba_network_agent.Prelude.Dict.{get}
use aruba_network_agent.Prelude.Text.{codes, starts_with}
use aruba_network_agent.State.{
  SwitchState, AgentState, reachable, reachable_by_ssh, poll_failed, is_blank, update_switch,
  new_vendor, new_down, new_failures, new_seen, new_event, set_snmp_health, set_os_version,
}
use aruba_network_agent.Poller.Data.{Monitor, Network, down, restored, down_report, restored_report}
use aruba_network_agent.Poller.Probe.{Probed, probe, profile_arg}
use aruba_network_agent.Poller.Alerts.{Alerted, maybe_send_alert}

-- `_maybe_resolve_vendor`
unfoldable pub maybe_resolve_vendor : Network → Monitor → AgentState → AgentState
maybe_resolve_vendor net m s = elim (get m.name s.switches) [
  | none ↦ s
  | some sw ↦
      if not (is_blank sw.vendor) || not m.has_snmp
      then s
      else elim (net.vendor_lookup (profile_arg sw.snmp_profile)) [
        | none ↦ s
        | some v ↦ update_switch m.name (new_vendor v ∷ []) s
      ]
]

-- The two sources of a version, the driver first.
unfoldable pub resolve_version : Network → Monitor → SwitchState → String
unfolding starts_with
resolve_version net m sw =
    let mode = if is_blank sw.monitor_mode then "auto" else sw.monitor_mode in
    let version =
      if starts_with (codes "aruba") (codes sw.vendor) && not (mode == "icmp")
      then net.driver_version sw.vendor
      else "" in
    if is_blank version && m.has_snmp
    then net.descr_version (profile_arg sw.snmp_profile)
    else version

-- `_maybe_resolve_os_version`
unfoldable pub maybe_resolve_os_version : Network → Monitor → AgentState → AgentState
unfolding resolve_version
maybe_resolve_os_version net m s = elim (get m.name s.switches) [
  | none ↦ s
  | some sw ↦
      if not (is_blank sw.os_version)
      then s
      else let version = resolve_version net m sw in
        if is_blank version then s else (set_os_version m.name version s).0
]

abbrev pub shown_name : SwitchState → Monitor → String
shown_name sw m = if is_blank sw.hostname then m.name else sw.hostname

-- The state after a successful probe, up to the test on `sw.is_down`.
unfoldable pub note_success : ℕ → Bool → Network → Monitor → AgentState → AgentState
unfolding maybe_resolve_vendor maybe_resolve_os_version
note_success now snmp_ok net m s =
    let seen =
      update_switch m.name
        (new_seen now
          ∷ new_failures 0
          ∷ new_event (if snmp_ok then reachable now else reachable_by_ssh now)
          ∷ [])
        s in
    let flagged = (set_snmp_health m.name snmp_ok seen).0 in
    maybe_resolve_os_version net m (maybe_resolve_vendor net m flagged)

unfoldable pub on_success : ℕ → Bool → Network → SwitchState → Monitor → AgentState → Alerted
unfolding note_success
on_success now snmp_ok net sw m s =
    let noted = note_success now snmp_ok net m s in
    if sw.is_down
    then maybe_send_alert now
        (record {
          kind = restored;
          label = shown_name sw m;
          body = restored_report m.host (shown_name sw m);
        })
        m (update_switch m.name (new_down false ∷ []) noted)
    else record { monitor = m; state = noted; sent = [] }

unfoldable pub on_failure : ℕ → SwitchState → Monitor → AgentState → Alerted
on_failure now sw m s =
    let failures = sw.failures + 1 in
    let noted =
      update_switch m.name (new_failures failures ∷ new_event (poll_failed failures now) ∷ []) s in
    if leb m.failure_threshold failures && not sw.is_down
    then maybe_send_alert now
        (record {
          kind = down;
          label = shown_name sw m;
          body = down_report m.host (shown_name sw m) failures m.poll_interval;
        })
        m (update_switch m.name (new_down true ∷ []) noted)
    else record { monitor = m; state = noted; sent = [] }

-- `(sw_now.monitor_mode if sw_now else "auto") or "auto"`
abbrev pub mode_of : Option SwitchState → String
mode_of none = "auto"
mode_of (some sw) = if is_blank sw.monitor_mode then "auto" else sw.monitor_mode

abbrev pub is_unmanaged : Option SwitchState → Bool
is_unmanaged none = false
is_unmanaged (some sw) = sw.unmanaged

-- What the probe of this cycle finds.
unfoldable pub probed : ℕ → Network → Monitor → AgentState → Probed
probed now net m s = probe now net (mode_of (get m.name s.switches)) m s

-- `_poll` from the second look-up of the switch on.
unfoldable pub judge : ℕ → Network → Probed → Alerted
unfolding on_success on_failure
judge now net p = elim (get p.monitor.name p.state.switches) [
  | none ↦ record { monitor = p.monitor; state = p.state; sent = [] }
  | some sw ↦
      if p.ok
      then on_success now p.snmp_ok net sw p.monitor p.state
      else on_failure now sw p.monitor p.state
]

unfoldable pub poll : ℕ → Network → Monitor → AgentState → Alerted
unfolding probed judge
poll now net m s =
    if is_unmanaged (get m.name s.switches)
    then record { monitor = m; state = s; sent = [] }
    else judge now net (probed now net m s)
