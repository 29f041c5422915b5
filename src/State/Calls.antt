-- ===== src/State/Calls.antt =====
-- What the other components do to `AgentState`: one constructor for each method that changes it and one
-- for the write that a page makes past the methods; and a run of them.
use aruba_network_agent.Prelude.{ℕ, String, Bool, Option, List, [], ◌∷◌}
use aruba_network_agent.State.Data.{Row, AgentState}
use aruba_network_agent.State.Ops.{
  Change, register_switch, pin_vendor, set_switch_profile, set_os_version, set_snmp_health,
  set_alert_mute, alerts_suppressed, set_unmanaged, remove_switch, update_switch, write_mode,
  set_backup_result, set_device_inventory, set_arp_last_run,
}

pub data Call : Type 0 where
  register : String → String → String → Call
  pin use_profile record_version : String → String → Call
  record_health : String → Bool → Call
  mute : String → Bool → Option ℕ → Call
  check_mute : ℕ → String → Call
  manage : String → Bool → Call
  forget : String → Call
  update : String → List Change → Call
  edit_mode : String → String → Call
  backup_done : ℕ → ℕ → ℕ → List Row → Call
  scan_done : ℕ → List Row → Call
  arp_done : ℕ → String → Call

unfoldable pub apply : Call → AgentState → AgentState
apply (register name host mode) s = register_switch name host mode s
apply (pin name vendor) s = pin_vendor name vendor s
apply (use_profile name profile) s = (set_switch_profile name profile s).0
apply (record_version name version) s = (set_os_version name version s).0
apply (record_health name healthy) s = (set_snmp_health name healthy s).0
apply (mute name muted until) s = (set_alert_mute name muted until s).0
apply (check_mute now name) s = (alerts_suppressed now name s).0
apply (manage name unmanaged) s = (set_unmanaged name unmanaged s).0
apply (forget name) s = (remove_switch name s).0
apply (update name changes) s = update_switch name changes s
apply (edit_mode name mode) s = write_mode name mode s
apply (backup_done now success failed devices) s = set_backup_result now success failed devices s
apply (scan_done now devices) s = set_device_inventory now devices s
apply (arp_done now location) s = set_arp_last_run now location s

unfoldable pub run : List Call → AgentState → AgentState
run [] s = s
run (c ∷ cs) s = run cs (apply c s)
