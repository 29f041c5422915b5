-- ===== src/Fdb/Tests.antt =====
-- The theorems on fdb.py and l2_discovery.py at two ports of a switch.
use mathlib.Core.List.{Mem}
use aruba_network_agent.Prelude.{
  ◌≡◌, refl, true, none, some, List, [], ◌∷◌, pair_Eq, All, string_Eq,
}
use aruba_network_agent.Prelude.Text.{codes, text_Eq, lower, lower_code}
use aruba_network_agent.Fdb.{
  Text, Columns, normalize_mac, raw_learned, among, assemble_fdb, FdbRow, search,
}
use aruba_network_agent.Fdb.Spelling.{spelling_round_trip}
use aruba_network_agent.Fdb.Places.{Place, places, on_port, IsDistinct}
use aruba_network_agent.Fdb.Counts.{record_places, port_counts_agree}
use aruba_network_agent.Fdb.Edge.{counts_of, as_list, least, IsSorted, edge_ports}

abbrev columns : Columns
columns = record {
  q_fdb =
      (codes "10.0.17.34.51.68.85", codes "3")
      ∷ (codes "20.0.17.34.51.68.85", codes "3")
      ∷ (codes "10.170.187.204.221.238.255", codes "3")
      ∷ (codes "10.1.2.3.4.5.6", codes "0")
      ∷ [];
  d_fdb = [];
  base_if = (codes "3", codes "103") ∷ [];
  if_name = (codes "103", codes "1/1/3") ∷ [];
}

spelling_round_trip_example : All (λ r. normalize_mac r.mac_fmt ≡ some r.mac) (assemble_fdb columns)
spelling_round_trip_example = spelling_round_trip columns

port_counts_agree_example :
    let rs = assemble_fdb columns in
    let ps = record_places rs in
    let p : Place = (codes "001122334455", codes "103") in
    (among p ps ≡ among p (places (raw_learned columns)))
    × IsDistinct ps
    × All (λ r. r.port_mac_count ≡ on_port r.ifindex ps) rs
port_counts_agree_example = port_counts_agree columns (codes "001122334455", codes "103")

abbrev on_uplink : FdbRow
on_uplink = record {
  device = "sw1";
  mac = codes "001122334455";
  ifname = codes "1/1/48";
  port_mac_count = some 200;
}

abbrev table : Text → List FdbRow
table canon =
    on_uplink
    ∷ record on_uplink { device = "sw2"; ifname = codes "1/1/3"; port_mac_count = some 1 }
    ∷ record on_uplink { ifname = codes "1/1/7"; port_mac_count = none }
    ∷ []

edge_ports_example :
    let found = search table true (codes "00:11:22:33:44:55") in
    (counts_of "sw1" found ≡ as_list (least "sw1" (table (codes "001122334455"))))
    × All (λ r. Mem r (table (codes "001122334455"))) found
    × IsSorted found
edge_ports_example =
    edge_ports table (codes "00:11:22:33:44:55") (codes "001122334455") "sw1"
      (unfold normalize_mac lower lower_code in refl)
