-- ===== src/ManualHosts/Tests.antt =====
-- The theorem on manual_hosts.py at a file with a mistyped mode.
use aruba_network_agent.Prelude.{◌≡◌, true, All, none, some, List, [], ◌∷◌}
use aruba_network_agent.ManualHosts.{
  ManualHost, HostCall, added, updated, removed, reopened, open_hosts, serve_hosts, get_mode,
  list_hosts, is_one_of, valid_modes,
}
use aruba_network_agent.ManualHosts.Modes.{IsMode, modes_are_valid}

abbrev mistyped : ManualHost
mistyped = record {
  name = "edge";
  host = "10.99.0.5";
  monitor_mode = "ping";
  snmp_profile = "";
  description = "";
  added_by = "ops";
  created = 1;
}

abbrev calls : List HostCall
calls =
    added 2 "core" "10.99.0.6" "snmp_ro" "" "" "ops"
    ∷ reopened
    ∷ updated "edge" (some "icmp") none none none
    ∷ updated "edge" (some "ssh") none none none
    ∷ removed "core"
    ∷ []

modes_are_valid_example :
    let s = serve_hosts calls (open_hosts (mistyped ∷ [])) in
    All (λ h. is_one_of h.monitor_mode valid_modes ≡ true) (list_hosts s)
    × IsMode (get_mode "10.99.0.5" s)
modes_are_valid_example = modes_are_valid (mistyped ∷ []) calls "10.99.0.5"
