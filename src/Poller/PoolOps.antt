-- ===== src/Poller/PoolOps.antt =====
-- `SwitchMonitorManager`: the pool of monitors, by host.
use aruba_network_agent.Prelude.{
  ℕ, ◌*◌, String, Bool, true, false, ◌||◌, none, some, List, [], ◌∷◌, string_Eq, nat_eq,
  if◌then◌else◌,
}
use aruba_network_agent.Prelude.Dict.{Dict, get, put, remove, contains, values}
use aruba_network_agent.State.{AgentState, is_blank, register_switch}
use aruba_network_agent.Poller.Data.{Monitor}
use aruba_network_agent.Poller.Probe.{second}

-- The defaults of the pool, its monitors, and the monitors that were told to stop.
pub record Manager : Type 0 where
  pub username : String
  pub password : String
  pub verify_ssl : Bool
  pub poll_interval : ℕ
  pub failure_threshold : ℕ
  pub has_snmp : Bool
  pub has_batcher : Bool
  pub alert_dedup_seconds : ℕ
  pub monitors : Dict String Monitor
  pub stopped : List Monitor

-- The arguments of `add` beside the host and the name.
pub record Options : Type 0 where
  pub username : String
  pub password : String
  pub verify_ssl : Bool
  pub poll_interval : ℕ
  pub failure_threshold : ℕ
  pub monitor_mode : String

abbrev pub default_options : Options
default_options = record {
  username = "";
  password = "";
  verify_ssl = false;
  poll_interval = 0;
  failure_threshold = 0;
  monitor_mode = "auto";
}

-- `text or dflt` and `number or dflt`
abbrev pub or_text : String → String → String
or_text s dflt = if is_blank s then dflt else s

abbrev pub or_number : ℕ → ℕ → ℕ
or_number n dflt = if nat_eq n 0 then dflt else n

-- `SwitchMonitor(...)` with the arguments that `add` gives it.
unfoldable pub new_monitor : Manager → String → String → Options → Monitor
new_monitor g host name o = record {
  name = name;
  host = host;
  username = or_text o.username g.username;
  password = or_text o.password g.password;
  verify_ssl = o.verify_ssl || g.verify_ssl;
  poll_interval = or_number o.poll_interval g.poll_interval;
  failure_threshold = or_number o.failure_threshold g.failure_threshold;
  monitor_mode = or_text o.monitor_mode "auto";
  has_snmp = g.has_snmp;
  has_batcher = g.has_batcher;
  alert_dedup = g.alert_dedup_seconds * second;
  last_alert = [];
  classification_cooldown_until = none;
}

-- `add`: the new monitor registers its switch with the state.
unfoldable pub add : String → String → Options → Manager → AgentState → Manager × AgentState
unfolding new_monitor
add host name o g s = if contains host g.monitors then (g, s) else (
  record g { monitors = put host (new_monitor g host name o) g.monitors },
  register_switch name host (or_text o.monitor_mode "auto") s,
)

-- `sync`
unfoldable pub sync : List String → Manager → AgentState → Manager × AgentState
unfolding add
sync [] g s = (g, s)
sync (ip ∷ ips) g s = let r = add ip ip default_options g s in sync ips r.0 r.1

-- `remove`
unfoldable pub remove_monitor : String → Manager → Manager × Bool
remove_monitor host g = elim (get host g.monitors) [
  | none ↦ (g, false)
  | some m ↦ (record g { monitors = remove host g.monitors; stopped = m ∷ g.stopped }, true)
]

-- `stop_all`
unfoldable pub stop_each : List Monitor → List Monitor → List Monitor
stop_each [] stopped = stopped
stop_each (m ∷ ms) stopped = stop_each ms (m ∷ stopped)

unfoldable pub stop_all : Manager → Manager
unfolding stop_each
stop_all g = record g { stopped = stop_each (values g.monitors) g.stopped }
