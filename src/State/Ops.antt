-- ===== src/State/Ops.antt =====
-- The operations of `AgentState`. A method that returns a value returns it beside the new state;
-- `datetime.now()` is the argument `now`.
use aruba_network_agent.Prelude.{
  ℕ, String, Bool, false, true, not, ◌&&◌, Option, none, some, List, [], ◌∷◌, ◌==◌, string_Eq, leb,
  if◌then◌else◌,
}
use aruba_network_agent.Prelude.Dict.{get, put, remove, contains, values}
use aruba_network_agent.State.Data.{EventText, SwitchState, new_switch, Row, AgentState, is_blank}
use aruba_network_agent.State.Snapshot.{save}

-- A write through the reference `sw = self.switches[name]`.
abbrev pub store_switch : String → SwitchState → AgentState → AgentState
store_switch name sw s = record s { switches = put name sw s.switches }

unfoldable pub register_switch : String → String → String → AgentState → AgentState
register_switch name host mode s = elim (get name s.switches) [
  | none ↦ save (store_switch name (new_switch name host mode) s)
  | some sw ↦
      if not (is_blank mode) && not (sw.monitor_mode == mode)
      then save (store_switch name (record sw { monitor_mode = mode }) s)
      else s
]

-- `for sw in self.switches.values(): if sw.host == host`
unfoldable pub first_by_host : String → List SwitchState → Option SwitchState
first_by_host host [] = none
first_by_host host (sw ∷ rest) = if sw.host == host then some sw else first_by_host host rest

unfoldable pub get_mode_for_host : String → AgentState → String
unfolding first_by_host
get_mode_for_host host s = elim (first_by_host host (values s.switches)) [
  | none ↦ "auto"
  | some sw ↦ if is_blank sw.monitor_mode then "auto" else sw.monitor_mode
]

unfoldable pub get_vendor_for_host : String → AgentState → String
unfolding first_by_host
get_vendor_for_host host s = elim (first_by_host host (values s.switches)) [
  | none ↦ ""
  | some sw ↦ sw.vendor
]

unfoldable pub get_hostname_for_host : String → AgentState → String
unfolding first_by_host
get_hostname_for_host host s = elim (first_by_host host (values s.switches)) [
  | none ↦ ""
  | some sw ↦ sw.hostname
]

unfoldable pub get_snmp_profile_for_host : String → AgentState → String
unfolding first_by_host
get_snmp_profile_for_host host s = elim (first_by_host host (values s.switches)) [
  | none ↦ ""
  | some sw ↦ sw.snmp_profile
]

unfoldable pub pin_vendor : String → String → AgentState → AgentState
pin_vendor name vendor s = elim (get name s.switches) [
  | none ↦ s
  | some sw ↦
      if sw.vendor == vendor then s else save (store_switch name (record sw { vendor = vendor }) s)
]

unfoldable pub set_switch_profile : String → String → AgentState → AgentState × Bool
set_switch_profile name profile s = elim (get name s.switches) [
  | none ↦ (s, false)
  | some sw ↦ (save (store_switch name (record sw { snmp_profile = profile }) s), true)
]

unfoldable pub set_os_version : String → String → AgentState → AgentState × Bool
set_os_version name version s = elim (get name s.switches) [
  | none ↦ (s, false)
  | some sw ↦
      if version == sw.os_version
      then (s, false)
      else (save (store_switch name (record sw { os_version = version }) s), true)
]

abbrev pub same_flag : Bool → Bool → Bool
same_flag true b = b
same_flag false b = not b

unfoldable pub set_snmp_health : String → Bool → AgentState → AgentState × Bool
set_snmp_health name healthy s = elim (get name s.switches) [
  | none ↦ (s, false)
  | some sw ↦
      if same_flag healthy sw.snmp_ok
      then (s, false)
      else (save (store_switch name (record sw { snmp_ok = healthy }) s), true)
]

unfoldable pub set_alert_mute : String → Bool → Option ℕ → AgentState → AgentState × Bool
set_alert_mute name muted until s = elim (get name s.switches) [
  | none ↦ (s, false)
  | some sw ↦ (
    save (
        store_switch name
          (record sw { alerts_muted = muted; mute_until = if muted then until else none }) s),
    true,
  )
]

-- `mute_until is not None and now >= mute_until`
abbrev pub has_expired : ℕ → Option ℕ → Bool
has_expired now none = false
has_expired now (some t) = leb t now

unfoldable pub alerts_suppressed : ℕ → String → AgentState → AgentState × Bool
alerts_suppressed now name s = elim (get name s.switches) [
  | none ↦ (s, false)
  | some sw ↦
      if not sw.alerts_muted
      then (s, false)
      else if has_expired now sw.mute_until
      then (
        save (store_switch name (record sw { alerts_muted = false; mute_until = none }) s),
        false,
      )
      else (s, true)
]

unfoldable pub set_unmanaged : String → Bool → AgentState → AgentState × Bool
set_unmanaged name unmanaged s = elim (get name s.switches) [
  | none ↦ (s, false)
  | some sw ↦ (save (store_switch name (record sw { unmanaged = unmanaged }) s), true)
]

unfoldable pub remove_switch : String → AgentState → AgentState × Bool
remove_switch name s =
    if contains name s.switches
    then (save (record s { switches = remove name s.switches }), true)
    else (s, false)

-- The keyword arguments that the callers of `update_switch` pass.
pub data Change : Type 0 where
  new_hostname new_vendor new_profile : String → Change
  new_down : Bool → Change
  new_failures : ℕ → Change
  new_seen : ℕ → Change
  new_event : EventText → Change

-- `setattr(sw, k, v)`
unfoldable pub set_attr : SwitchState → Change → SwitchState
set_attr sw (new_hostname x) = record sw { hostname = x }
set_attr sw (new_vendor x) = record sw { vendor = x }
set_attr sw (new_profile x) = record sw { snmp_profile = x }
set_attr sw (new_down x) = record sw { is_down = x }
set_attr sw (new_failures x) = record sw { failures = x }
set_attr sw (new_seen x) = record sw { last_seen = some x }
set_attr sw (new_event x) = record sw { last_event = x }

unfoldable pub set_attrs : SwitchState → List Change → SwitchState
unfolding set_attr
set_attrs sw [] = sw
set_attrs sw (c ∷ cs) = set_attrs (set_attr sw c) cs

unfoldable pub update_switch : String → List Change → AgentState → AgentState
unfolding set_attrs
update_switch name changes s = elim (get name s.switches) [
  | none ↦ s
  | some sw ↦
      let sw' = set_attrs sw changes in
      let s' = store_switch name sw' s in if same_flag sw.is_down sw'.is_down then s' else save s'
]

-- What the page of the manual hosts does beside the methods: `state.switches[name].monitor_mode = mode`,
-- with no save
unfoldable pub write_mode : String → String → AgentState → AgentState
write_mode name mode s = elim (get name s.switches) [
  | none ↦ s
  | some sw ↦ store_switch name (record sw { monitor_mode = mode }) s
]

unfoldable pub set_backup_result : ℕ → ℕ → ℕ → List Row → AgentState → AgentState
set_backup_result now success failed devices s = save (record s {
  backup = record {
    timestamp = some now;
    success_count = success;
    failed_count = failed;
    failed_devices = devices;
  };
})

unfoldable pub set_device_inventory : ℕ → List Row → AgentState → AgentState
set_device_inventory now devices s =
    save (record s { device_inventory = devices; scanner_last_run = some now })

unfoldable pub set_arp_last_run : ℕ → String → AgentState → AgentState
set_arp_last_run now location s =
    save (record s { arp_last_run = put location (some now) s.arp_last_run })
