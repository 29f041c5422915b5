-- ===== src/State/Tests.antt =====
-- The theorems on state.py at a core switch and an access switch, over a file that is empty at first.
use aruba_network_agent.Prelude.{
  String, ◌≡◌, ◌≢◌, refl, true, false, none, some, List, arith, ==_iff, [], ◌∷◌, string_Eq,
}
use aruba_network_agent.Prelude.Dict.{get, put}
use aruba_network_agent.State.{
  SwitchState, AgentState, JsonStore, init, save, Call, apply, register, pin, register_switch,
  pin_vendor, set_device_inventory, set_arp_last_run, store_save, set_attrs, set_attr, store_load,
  mute, update, scan_done, arp_done, run, set_alert_mute, alerts_suppressed, new_vendor,
  new_profile, new_down, new_failures, update_switch, new_switch,
}
use aruba_network_agent.State.Kept.{Kept}
use aruba_network_agent.State.WellFormed.{IsWellFormed, AllProper, run-init-IsWellFormed}
use aruba_network_agent.State.Restart.{IsHealthy, restart, restart-save}
use aruba_network_agent.State.Durable.{SameCore, AllKeep, run-recovers, discovery_is_lost}
use aruba_network_agent.State.Mute.{suppressed-mute, suppressed_once}
use aruba_network_agent.State.Lookup.{IsHostView, lookups_agree}

abbrev empty_file : JsonStore
empty_file = record { path_set = true; readable = true; writable = true; contents = none }

empty_file-IsHealthy : IsHealthy empty_file
empty_file-IsHealthy = record { has_path = refl; reads = refl; writes = refl }

abbrev calls : List Call
calls =
    register "core" "10.0.0.1" "auto"
    ∷ register "access" "10.0.0.2" "icmp"
    ∷ pin "core" "aruba_cx"
    ∷ mute "access" true (some 900)
    ∷ update "access" (new_failures 1 ∷ [])
    ∷ update "core" (new_down true ∷ [])
    ∷ scan_done 50 []
    ∷ arp_done 70 "site"
    ∷ []

calls-AllProper : AllProper calls
calls-AllProper = ((refl, refl, refl), ((refl, refl, refl), (tt, (tt, (tt, (tt, (tt, (tt, tt))))))))

abbrev all_kept : Kept
all_kept = record { hostname = true; vendor = true; profile = true; mode = true }

run-recovers_example :
    SameCore all_kept (restart (run calls (init empty_file))) (run calls (init empty_file))
run-recovers_example =
    run-recovers all_kept empty_file calls empty_file-IsHealthy calls-AllProper calls-AllKeep
  where
    calls-AllKeep : AllKeep all_kept calls
    calls-AllKeep = (tt, (tt, (tt, (tt, ((tt, tt), ((tt, tt), (tt, (tt, tt))))))))

run-init-IsWellFormed_example : IsWellFormed (run calls (init empty_file))
run-init-IsWellFormed_example = run-init-IsWellFormed empty_file calls calls-AllProper

abbrev busy : AgentState
busy = run calls (init empty_file)

busy-store : IsHealthy busy.store
unfolding run apply register_switch pin_vendor set_alert_mute update_switch set_device_inventory
    set_arp_last_run save store_save init store_load get put set_attrs set_attr
busy-store = record { has_path = refl; reads = refl; writes = refl }

restart-save_example : restart (save busy) ≡ save busy
restart-save_example = restart-save busy run-init-IsWellFormed_example busy-store

discovery_is_lost_example :
    restart
      (update_switch "access" (new_vendor "cisco_ios" ∷ new_profile "v2_public" ∷ []) (save busy))
    ≡ save busy
discovery_is_lost_example =
    discovery_is_lost busy "access" "cisco_ios" "v2_public" run-init-IsWellFormed_example busy-store

lookups_agree_example : IsHostView "10.0.0.2" busy
lookups_agree_example = lookups_agree busy "10.0.0.2" run-init-IsWellFormed_example

abbrev access : SwitchState
access = record (new_switch "access" "10.0.0.2" "icmp") {
  alerts_muted = true;
  mute_until = some 900;
  failures = 1;
}

access-get : get "access" busy.switches ≡ some access
unfolding run apply register_switch pin_vendor set_alert_mute update_switch set_device_inventory
    set_arp_last_run save store_save init store_load get put set_attrs set_attr
access-get = refl

suppressed-mute_example :
    (alerts_suppressed 899 "access" (set_alert_mute "access" true (some 900) busy).0).1 ≡ true
suppressed-mute_example = suppressed-mute busy "access" access true (some 900) 899 access-get

distinct : ◌≢◌ {A = String} "access" "core"
distinct e = let same = (==_iff {A = String} "access" "core").1 e in ground arith

suppressed_once_example :
    let s' = (alerts_suppressed 900 "access" busy).0 in
    ((alerts_suppressed 5 "access" s').1 ≡ false)
    × (get "core" s'.switches ≡ get "core" busy.switches)
suppressed_once_example = suppressed_once busy "access" "core" access 900 5 access-get refl distinct
