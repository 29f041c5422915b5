-- ===== src/Interfaces/Poll.antt =====
-- `InterfacePollTask` of tasks/interface_poll.py: one poll of a switch, the counters that the store
-- keeps over a restart, and the samples for the thresholds.
use aruba_network_agent.Prelude.{
  ℕ, ◌+◌, ◌*◌, ◌-◌, String, Bool, true, false, not, ◌&&◌, ◌||◌, Option, none, some, List, [], ◌∷◌,
  ◌++◌, string_Eq, length, ltb, nat_eq, if◌then◌else◌,
}
use aruba_network_agent.Prelude.Dict.{Dict, get, put}
use aruba_network_agent.Prelude.Text.{codes, is_digit}
use aruba_network_agent.Thresholds.{Sample}
use aruba_network_agent.Interfaces.Util.{Floats, compute_util}

-- A row of `assemble_rows`, less the columns that the task passes on unread.
pub record PortRow : Type 0 where
  pub ifindex : String
  pub name : String
  pub speed_mbps : ℕ
  pub hc_in : ℕ
  pub hc_out : ℕ
  pub crc_err : ℕ

-- A row of `_current`
pub record Reading (V : Type 0) : Type 0 where
  pub row : PortRow
  pub in_util : Option V
  pub out_util : Option V

-- (time, octets in, octets out)
abbrev pub Snapshot : Type 0 → Type 0
Snapshot V = V × (ℕ × ℕ)

-- What `record_metric` is called with.
pub record Metric (V : Type 0) : Type 0 where
  pub device : String
  pub ifindex : String
  pub is_out : Bool
  pub value : V

-- The task and its store. `counters` are what the store has saved, where it can; an entry that is
-- `none` cannot be read.
pub record InterfaceTask (V : Type 0) : Type 0 where
  pub record_metrics : Bool
  pub record_zero_util : Bool
  pub prev : Dict String (Dict String (Snapshot V))
  pub current : Dict String (List (Reading V))
  pub metrics : List (Metric V)
  pub persists : Bool
  pub counters : Dict String (Dict String (Option (Snapshot V)))

-- `int` of a text of digits
abbrev pub number : ℕ → List ℕ → ℕ
number n [] = n
number n (c ∷ s) = number (n * 10 + (c - b'0')) s

abbrev pub text_less : List ℕ → List ℕ → Bool
text_less [] [] = false
text_less [] (d ∷ t) = true
text_less (c ∷ s) [] = false
text_less (c ∷ s) (d ∷ t) = if ltb c d then true else nat_eq c d && text_less s t

-- `_sortkey(x) < _sortkey(y)`: numbers before other texts. An index is made of digits and dots.
unfoldable pub index_less : String → String → Bool
unfolding is_digit
index_less x y =
    let s = codes x in
    let t = codes y in
    if is_digit s
    then (if is_digit t then ltb (number 0 s) (number 0 t) else true)
    else (if is_digit t then false else text_less s t)

module _ {V : Type 0} where
  -- `current.sort`, which is stable
  unfoldable pub insert : Reading V → List (Reading V) → List (Reading V)
  unfolding index_less
  insert r [] = r ∷ []
  insert r (s ∷ rs) =
      let rest = insert r rs in
      if index_less s.row.ifindex r.row.ifindex then s ∷ rest else r ∷ s ∷ rs

  unfoldable pub sort_readings : List (Reading V) → List (Reading V)
  unfolding insert
  sort_readings [] = []
  sort_readings (r ∷ rs) = insert r (sort_readings rs)

  -- `_load_prev`: the entries that can be read
  unfoldable pub loadable : Dict String (Option (Snapshot V)) → Dict String (Snapshot V)
  loadable [] = []
  loadable (e ∷ d) = elim e.1 [ none ↦ loadable d | some p ↦ (e.0, p) ∷ loadable d ]

  -- What `_load_prev` leaves in the task and returns.
  unfoldable pub load_prev : String → InterfaceTask V → InterfaceTask V × Dict String (Snapshot V)
  unfolding loadable
  load_prev name t = if not t.persists then (t, []) else elim (get name t.counters) [
    | none ↦ (record t { prev = put name [] t.prev }, [])
    | some raw ↦ (record t { prev = put name (loadable raw) t.prev }, loadable raw)
  ]

  -- The counters of the last poll: those in memory, or else those of the store.
  unfoldable pub last_counters :
      String → InterfaceTask V → InterfaceTask V × Dict String (Snapshot V)
  unfolding load_prev
  last_counters name t = elim (get name t.prev) [ none ↦ load_prev name t | some d ↦ (t, d) ]

  -- `newprev`
  unfoldable pub snapshots : V → Dict String PortRow → Dict String (Snapshot V)
  snapshots now [] = []
  snapshots now (e ∷ rows) = (e.0, (now, (e.1.hc_in, e.1.hc_out))) ∷ snapshots now rows

  abbrev pub written : Dict String (Snapshot V) → Dict String (Option (Snapshot V))
  written [] = []
  written (e ∷ d) = (e.0, some e.1) ∷ written d

  -- `_save_prev`
  unfoldable pub save_prev : String → Dict String (Snapshot V) → InterfaceTask V → InterfaceTask V
  save_prev name d t =
      if not t.persists then t else record t { counters = put name (written d) t.counters }

module _ {V : Type 0} (f : Floats V) where
  unfoldable pub reading : V → Dict String (Snapshot V) → String × PortRow → Reading V
  unfolding compute_util
  reading now prev e = elim (get e.0 prev) [
    | none ↦ record {
      row = e.1;
      in_util = compute_util f none e.1.hc_in f.zero e.1.speed_mbps;
      out_util = compute_util f none e.1.hc_out f.zero e.1.speed_mbps;
    }
    | some p ↦
        let elapsed = f.minus now p.0 in
        record {
          row = e.1;
          in_util = compute_util f (some p.1.0) e.1.hc_in elapsed e.1.speed_mbps;
          out_util = compute_util f (some p.1.1) e.1.hc_out elapsed e.1.speed_mbps;
        }
  ]

  -- A utilisation is recorded unless it is zero and zeros are not wanted.
  unfoldable pub metric_of : Bool → String → String → Bool → Option V → List (Metric V)
  metric_of zeros device index is_out none = []
  metric_of zeros device index is_out (some u) =
      if zeros || f.less f.zero u
      then record { device = device; ifindex = index; is_out = is_out; value = u } ∷ []
      else []

  -- The loop over the rows
  unfoldable pub port_readings :
      V → Dict String (Snapshot V) → Dict String PortRow → List (Reading V)
  unfolding reading
  port_readings now prev [] = []
  port_readings now prev (e ∷ rows) = reading now prev e ∷ port_readings now prev rows

  unfoldable pub metrics_of : Bool → String → List (Reading V) → List (Metric V)
  unfolding metric_of
  metrics_of zeros device [] = []
  metrics_of zeros device (r ∷ rs) =
      metric_of zeros device r.row.ifindex false r.in_util
      ++ metric_of zeros device r.row.ifindex true r.out_util
      ++ metrics_of zeros device rs

  -- `_poll_one_inner`, where the walk answers at the time `now`; it returns the number of rows.
  unfoldable pub poll_one :
      V → String → Option (Dict String PortRow) → InterfaceTask V → InterfaceTask V × ℕ
  unfolding last_counters port_readings metrics_of snapshots save_prev sort_readings
  poll_one now name none t = (t, 0)
  poll_one now name (some rows) t =
      let r = last_counters name t in
      let current = port_readings now r.1 rows in
      let new_prev = snapshots now rows in
      (
        save_prev name new_prev (record r.0 {
          metrics =
              if t.record_metrics
              then r.0.metrics ++ metrics_of t.record_zero_util name current
              else r.0.metrics;
          prev = put name new_prev r.0.prev;
          current = put name (sort_readings current) r.0.current;
        }),
        length current,
      )

  -- A sample of a row, if there is a value
  unfoldable pub sample_of : String → String → String → String → Option V → List (Sample V)
  sample_of device host port metric none = []
  sample_of device host port metric (some u) =
      record { device = device; host = host; metric = metric; instance_name = port; value = some u }
      ∷ []

  unfoldable pub row_samples : String → String → Reading V → List (Sample V)
  unfolding sample_of
  row_samples device host r =
      sample_of device host r.row.name "if_util_in" r.in_util
      ++ sample_of device host r.row.name "if_util_out" r.out_util
      ++ sample_of device host r.row.name "crc_errors" (some (f.of_int r.row.crc_err))

  unfoldable pub rows_samples : String → String → List (Reading V) → List (Sample V)
  unfolding row_samples
  rows_samples device host [] = []
  rows_samples device host (r ∷ rs) = row_samples device host r ++ rows_samples device host rs

  -- `samples`, over the hosts of the registry
  unfoldable pub samples : Dict String String → Dict String (List (Reading V)) → List (Sample V)
  unfolding rows_samples
  samples hosts [] = []
  samples hosts (e ∷ current) =
      rows_samples e.0 (elim (get e.0 hosts) [ none ↦ e.0 | some host ↦ host ]) e.1
      ++ samples hosts current
