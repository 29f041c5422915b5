-- ===== src/Poller/Tests.antt =====
-- The theorems on switch_poller.py at one monitored switch that is pinged, and at a pool of two.
use aruba_network_agent.Prelude.{
  ℕ, String, ◌≡◌, refl, Bool, true, false, none, some, List, [], ◌∷◌, string_Eq, arith, All, leb,
  ==_iff, ◌==◌, subst, Bool-cases, inl, inr, if◌then◌else◌,
}
use aruba_network_agent.Prelude.Dict.{get, put, contains}
use aruba_network_agent.Prelude.Dict.Entries.{AllEntries}
use aruba_network_agent.State.{
  SwitchState, AgentState, JsonStore, save, store_save, new_switch, empty_state, update_switch,
  set_attrs, set_attr, alerts_suppressed, get_mode_for_host, first_by_host,
}
use aruba_network_agent.Poller.{
  Monitor, Network, down, restored, kind_Eq, exit_code, ping_failed, rest_failed, poll, poll_snmp,
  poll_icmp, Kind, Alert, restored_report, mailed, Manager, sync, probed, probe, judge, on_failure,
  maybe_send_alert,
}
use aruba_network_agent.Poller.Keeps.{vitals}
use aruba_network_agent.Poller.Transitions.{
  cycles, outcomes, streak, Announces, down_iff_streak, poll-Announces,
}
use aruba_network_agent.Poller.Dedup.{Raised, after, sent_iff_quiet}
use aruba_network_agent.Poller.Ladder.{discovery_cools_down}
use aruba_network_agent.Poller.Pool.{IsPool, IsWatched, sync_watches}

abbrev no_file : JsonStore
no_file = record { path_set = false; readable = true; writable = true; contents = none }

abbrev access : SwitchState
access = new_switch "access" "10.0.0.2" "icmp"

abbrev one_switch : AgentState
one_switch = record (empty_state no_file) { switches = ("access", access) ∷ [] }

abbrev watcher : Monitor
watcher = record {
  name = "access";
  host = "10.0.0.2";
  username = "admin";
  password = "";
  verify_ssl = false;
  poll_interval = 60;
  failure_threshold = 2;
  monitor_mode = "icmp";
  has_snmp = true;
  has_batcher = false;
  alert_dedup = 600;
  last_alert = [];
  classification_cooldown_until = none;
}

-- A network in which nothing answers but the ping, when it does, and no profile is discovered.
abbrev pinged : Bool → Network
pinged up = record {
  detect = some none;
  snmp_reachable = λ profile. false;
  sys_name = λ profile. none;
  ping = if up then exit_code 0 else ping_failed;
  banner = none;
  rest = rest_failed;
  vendor_lookup = λ profile. none;
  driver_version = λ vendor. "";
  descr_version = λ profile. "";
}

abbrev polls : List (ℕ × Network)
polls = (10, pinged true) ∷ (20, pinged false) ∷ (30, pinged false) ∷ []

starts_up : vitals "access" one_switch ≡ some (false, 0, false)
unfolding vitals get
starts_up = refl

down_iff_streak_example :
    let n = streak 0 (outcomes polls watcher one_switch) in
    vitals "access" (cycles polls watcher one_switch) ≡ some (leb 2 n, n, false)
down_iff_streak_example = down_iff_streak polls watcher one_switch (ground arith) starts_up

abbrev failing : AgentState
failing = record (empty_state no_file) {
  switches = ("access", record access { failures = 1 }) ∷ [];
}

failing_once : vitals "access" failing ≡ some (false, 1, false)
unfolding vitals get
failing_once = refl

now_down : vitals "access" (poll 30 (pinged false) watcher failing).state ≡ some (true, 2, false)
unfolding vitals get poll probed probe poll_icmp judge on_failure update_switch set_attrs set_attr
    save store_save put alerts_suppressed maybe_send_alert get_mode_for_host first_by_host
now_down = refl

poll-Announces_example : Announces false true (poll 30 (pinged false) watcher failing).sent
poll-Announces_example =
    poll-Announces 30 (pinged false) watcher failing false true 1 2 failing_once now_down

abbrev alert : Kind → Alert
alert kind = record { kind = kind; label = "Access"; body = restored_report "access" "10.0.0.2" }

-- The registry with the switch muted until 450
abbrev muted : AgentState
muted = record (empty_state no_file) {
  switches = ("access", record access { alerts_muted = true; mute_until = some 450 }) ∷ [];
}

abbrev history : Raised
history =
    (100, alert down, one_switch) ∷ (400, alert down, muted) ∷ (500, alert restored, muted) ∷ []

sent_iff_quiet_example :
    (maybe_send_alert 700 (alert down) (after history watcher) one_switch).sent
    ≡ mailed (alert down) ∷ []
unfolding get
sent_iff_quiet_example =
    sent_iff_quiet history 100 700 (alert down) watcher one_switch (ground arith) refl
      (ground arith)

discovery_cools_down_example :
    let p = poll_snmp 10 (pinged false) watcher one_switch in
    (p.ok ≡ false)
    × (poll_snmp 20 (pinged true) p.monitor p.state
        ≡ record { ok = false; snmp_ok = true; monitor = p.monitor; state = one_switch })
discovery_cools_down_example =
    discovery_cools_down 10 20 (pinged false) (pinged true) watcher one_switch access
      (unfold get in refl) refl refl refl (ground arith)

abbrev pool : Manager
pool = record {
  username = "admin";
  password = "";
  verify_ssl = false;
  poll_interval = 60;
  failure_threshold = 2;
  has_snmp = true;
  has_batcher = false;
  alert_dedup_seconds = 600;
  monitors = ("10.0.0.2", watcher) ∷ [];
  stopped = [];
}

abbrev host_eq : String → Bool
host_eq host = "10.0.0.2" == host

pool-IsWatched :
    (host : String) (m : Monitor) → get host pool.monitors ≡ some m → IsWatched one_switch host m
unfolding get
pool-IsWatched host m h = elim (Bool-cases (host_eq host)) [
  | inl e ↦
      let same : watcher ≡ m = ground arith in
      subst (λ x. IsWatched one_switch host x) same
        ((==_iff "10.0.0.2" host).0 e, unfold contains in refl)
  | inr e ↦ ground arith
]

pool-IsPool : IsPool pool one_switch
pool-IsPool = record {
  unique = (unfold get in refl, tt);
  watched = λ host m h. pool-IsWatched host m h;
}

sync_watches_example :
    let r = sync ("10.0.0.2" ∷ "10.0.0.3" ∷ []) pool one_switch in
    IsPool r.0 r.1
    × All (λ ip. contains ip r.0.monitors ≡ true) ("10.0.0.2" ∷ "10.0.0.3" ∷ [])
    × AllEntries (λ host m. get host r.0.monitors ≡ some m) pool.monitors
sync_watches_example = sync_watches ("10.0.0.2" ∷ "10.0.0.3" ∷ []) pool one_switch pool-IsPool
