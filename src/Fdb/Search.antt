-- ===== src/Fdb/Search.antt =====
-- `L2DiscoveryTask.search` of tasks/l2_discovery.py, over the store's search as an argument.
use aruba_network_agent.Prelude.{
  ℕ, String, Bool, Option, none, some, List, [], ◌∷◌, string_Eq, ltb, if◌then◌else◌,
}
use aruba_network_agent.Prelude.Dict.{Dict, get, put, values}
use aruba_network_agent.Fdb.Mac.{Text, normalize_mac}

-- A row of the store; the count may be missing.
pub record FdbRow : Type 0 where
  pub device : String
  pub mac : Text
  pub ifname : Text
  pub port_mac_count : Option ℕ

-- `r.get("port_mac_count", 1e9)`
unfoldable pub mac_count : FdbRow → ℕ
mac_count r = elim r.port_mac_count [ none ↦ 1000000000 | some n ↦ n ]

-- The loop that makes `best`
unfoldable pub best_step : FdbRow → Dict String FdbRow → Dict String FdbRow
unfolding mac_count
best_step r best = elim (get r.device best) [
  | none ↦ put r.device r best
  | some b ↦ if ltb (mac_count r) (mac_count b) then put r.device r best else best
]

unfoldable pub best_of : List FdbRow → Dict String FdbRow → Dict String FdbRow
unfolding best_step
best_of [] best = best
best_of (r ∷ rows) best = best_of rows (best_step r best)

-- `sorted`, which is stable
unfoldable pub insert_row : FdbRow → List FdbRow → List FdbRow
unfolding mac_count
insert_row r [] = r ∷ []
insert_row r (s ∷ rows) =
    let rest = insert_row r rows in
    if ltb (mac_count s) (mac_count r) then s ∷ rest else r ∷ s ∷ rows

unfoldable pub sort_rows : List FdbRow → List FdbRow
unfolding insert_row
sort_rows [] = []
sort_rows (r ∷ rows) = insert_row r (sort_rows rows)

-- `search`
unfoldable pub search : (Text → List FdbRow) → Bool → Text → List FdbRow
unfolding normalize_mac best_of sort_rows
search search_fdb edge_only mac_query = elim (normalize_mac mac_query) [
  | none ↦ []
  | some canon ↦
      let rows = search_fdb canon in
      if edge_only then sort_rows (values (best_of rows [])) else rows
]
