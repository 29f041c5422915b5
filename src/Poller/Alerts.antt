-- ===== src/Poller/Alerts.antt =====
-- `_maybe_send_alert`: mute, dedup window, delivery.
use aruba_network_agent.Prelude.{
  ℕ, ◌+◌, Bool, true, false, Option, none, some, List, [], ◌∷◌, ltb, if◌then◌else◌,
}
use aruba_network_agent.Prelude.Dict.{get, put}
use aruba_network_agent.State.{AgentState, alerts_suppressed}
use aruba_network_agent.Poller.Data.{Monitor, Kind, kind_Eq, Alert, Sent, queued, mailed}

-- `last is not None and (now - last).total_seconds() < window`
abbrev pub is_recent : ℕ → ℕ → Option ℕ → Bool
is_recent window now none = false
is_recent window now (some last) = ltb now (last + window)

-- The dedup part: the kind's time is refreshed whether the alert passes or not.
unfoldable pub dedup : ℕ → Kind → Monitor → Monitor × Bool
dedup now kind m =
    if ltb 0 m.alert_dedup
    then if is_recent m.alert_dedup now (get kind m.last_alert)
      then (record m { last_alert = put kind now m.last_alert }, false)
      else (record m { last_alert = put kind now m.last_alert }, true)
    else (m, true)

pub record Alerted : Type 0 where
  pub monitor : Monitor
  pub state : AgentState
  pub sent : List Sent

abbrev pub deliver : Monitor → Alert → Sent
deliver m a = if m.has_batcher then queued a else mailed a

unfoldable pub maybe_send_alert : ℕ → Alert → Monitor → AgentState → Alerted
unfolding dedup
maybe_send_alert now a m s =
    let muted = alerts_suppressed now m.name s in
    if muted.1
    then record { monitor = m; state = muted.0; sent = [] }
    else let gate = dedup now a.kind m in
      if gate.1
      then record { monitor = gate.0; state = muted.0; sent = deliver m a ∷ [] }
      else record { monitor = gate.0; state = muted.0; sent = [] }
