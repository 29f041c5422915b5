-- ===== src/Interfaces/Bounds.antt =====
-- The range of what interface_poll.py records and offers.
use aruba_network_agent.Prelude.{
  String, ◌≡◌, refl, sym, subst, ◌⊎◌, inl, inr, Bool, true, false, ◌||◌, Option, none, some, List,
  [], ◌∷◌, ◌++◌, string_Eq, All, arith, Bool-cases, if◌then◌else◌,
}
use aruba_network_agent.Prelude.Dict.{Dict, put}
use aruba_network_agent.Prelude.Dict.Entries.{AllEntries, put-AllEntries}
use aruba_network_agent.Thresholds.{Sample}
use aruba_network_agent.Interfaces.{
  Floats, IsFloat, index_less, PortRow, Reading, Snapshot, Metric, InterfaceTask, insert,
  sort_readings, load_prev, last_counters, snapshots, save_prev, metric_of, port_readings,
  metrics_of, poll_one, sample_of, row_samples, rows_samples, samples,
}
use aruba_network_agent.Interfaces.Percent.{
  IsPercent, IsPercentIf, IsInRange, port_readings-InRange,
}

-- A poll: its time, its switch, and what the walk answers.
pub record Poll (V : Type 0) : Type 0 where
  pub now : V
  pub name : String
  pub rows : Option (Dict String PortRow)

unfoldable pub poll_each :
    {V : Type 0} → Floats V → List (Poll V) → InterfaceTask V → InterfaceTask V
unfolding poll_one
poll_each f [] t = t
poll_each f (p ∷ ps) t = poll_each f ps (poll_one f p.now p.name p.rows t).0

module _ {V : Type 0} (f : Floats V) where
  -- A sample is a count of errors, or a percentage.
  abbrev pub IsFit : Sample V → Type 0
  IsFit s = (s.metric ≡ "crc_errors") ⊎ IsPercentIf f s.value

  insert-InRange :
      (r : Reading V) (rs : List (Reading V))
      → IsInRange f r
      → All (IsInRange f) rs
      → All (IsInRange f) (insert r rs)
  unfolding insert
  insert-InRange r [] a b = (a, tt)
  insert-InRange r (s ∷ rs) a b =
      let rest = insert-InRange r rs a b.1 in
      elim (Bool-cases (index_less s.row.ifindex r.row.ifindex)) [
        | inl e ↦ rw e (b.0, rest)
        | inr e ↦ rw e (a, b)
      ]

  sort_readings-InRange :
      (rs : List (Reading V)) → All (IsInRange f) rs → All (IsInRange f) (sort_readings rs)
  unfolding sort_readings
  sort_readings-InRange [] h = tt
  sort_readings-InRange (r ∷ rs) h =
      insert-InRange r (sort_readings rs) h.0 (sort_readings-InRange rs h.1)

  All-append {ℓ} :
      {A : Type ℓ} (P : A → Type 0) (xs ys : List A) → All P xs → All P ys → All P (xs ++ ys)
  All-append P [] ys h k = k
  All-append P (x ∷ xs) ys h k = (h.0, All-append P xs ys h.1 k)

  All-if {ℓ} :
      {A : Type ℓ} (P : A → Type 0) (b : Bool) (xs ys : List A)
      → All P xs
      → All P ys
      → All P (if b then xs else ys)
  All-if P true xs ys h k = h
  All-if P false xs ys h k = k

  abbrev IsPercentMetric : Metric V → Type 0
  IsPercentMetric m = IsPercent f m.value

  metric_of-Percent :
      (zeros : Bool) (device index : String) (is_out : Bool) (u : Option V)
      → IsPercentIf f u
      → All IsPercentMetric (metric_of f zeros device index is_out u)
  unfolding metric_of
  metric_of-Percent zeros device index is_out none h = tt
  metric_of-Percent zeros device index is_out (some u) h =
      elim (Bool-cases (zeros || f.less f.zero u)) [ inl e ↦ rw e (h, tt) | inr e ↦ rw e tt ]

  metrics_of-Percent :
      (zeros : Bool) (device : String) (rs : List (Reading V))
      → All (IsInRange f) rs
      → All IsPercentMetric (metrics_of f zeros device rs)
  unfolding metrics_of
  metrics_of-Percent zeros device [] h = tt
  metrics_of-Percent zeros device (r ∷ rs) h =
      All-append IsPercentMetric _ _
        (All-append IsPercentMetric _ _
          (metric_of-Percent zeros device r.row.ifindex false r.in_util h.0.0)
          (metric_of-Percent zeros device r.row.ifindex true r.out_util h.0.1))
        (metrics_of-Percent zeros device rs h.1)

  -- What is recorded and what is offered are percentages.
  record AreInRange (t : InterfaceTask V) : Type 0 where
    recorded : All IsPercentMetric t.metrics
    offered : AllEntries (λ name rs. All (IsInRange f) rs) t.current

  last_counters-same :
      (name : String) (t : InterfaceTask V)
      → let t' = (last_counters name t).0 in
        (t'.metrics ≡ t.metrics)
        × (t'.current ≡ t.current)
        × (t'.record_metrics ≡ t.record_metrics)
        × (t'.record_zero_util ≡ t.record_zero_util)
  unfolding last_counters load_prev
  last_counters-same name t = ground arith

  save_prev-same :
      (name : String) (d : Dict String (Snapshot V)) (t : InterfaceTask V)
      → let t' = save_prev name d t in (t'.metrics ≡ t.metrics) × (t'.current ≡ t.current)
  unfolding save_prev
  save_prev-same name d t = ground arith

  sample_of-Fit :
      (device host port metric : String) (u : Option V)
      → IsPercentIf f u
      → All IsFit (sample_of f device host port metric u)
  unfolding sample_of
  sample_of-Fit device host port metric none h = tt
  sample_of-Fit device host port metric (some u) h = (inr h, tt)

  rows_samples-Fit :
      (device host : String) (rs : List (Reading V))
      → All (IsInRange f) rs
      → All IsFit (rows_samples f device host rs)
  unfolding rows_samples row_samples sample_of
  rows_samples-Fit device host [] h = tt
  rows_samples-Fit device host (r ∷ rs) h =
      All-append IsFit _ _
        (All-append IsFit _ _
          (All-append IsFit _ _ (sample_of-Fit device host r.row.name "if_util_in" r.in_util h.0.0)
            (sample_of-Fit device host r.row.name "if_util_out" r.out_util h.0.1))
          (inl refl, tt))
        (rows_samples-Fit device host rs h.1)

  samples-Fit :
      (hosts : Dict String String) (current : Dict String (List (Reading V)))
      → AllEntries (λ name rs. All (IsInRange f) rs) current
      → All IsFit (samples f hosts current)
  unfolding samples
  samples-Fit hosts [] h = tt
  samples-Fit hosts (e ∷ current) h =
      All-append IsFit _ _ (rows_samples-Fit e.0 _ e.1 h.0) (samples-Fit hosts current h.1)

  poll_one-AreInRange :
      IsFloat f
      → (now : V) (name : String) (rows : Option (Dict String PortRow)) (t : InterfaceTask V)
      → AreInRange t
      → AreInRange (poll_one f now name rows t).0
  unfolding poll_one
  poll_one-AreInRange law now name none t h = h
  poll_one-AreInRange law now name (some rows) t h =
      let r = last_counters name t in
      let same = last_counters-same name t in
      let current = port_readings f now r.1 rows in
      let ranged = port_readings-InRange f law now r.1 rows in
      let old : All IsPercentMetric r.0.metrics =
        subst (All IsPercentMetric) (sym same.0) h.recorded in
      let new_metrics =
        if t.record_metrics
        then r.0.metrics ++ metrics_of f t.record_zero_util name current
        else r.0.metrics in
      let recorded : All IsPercentMetric new_metrics =
        All-if IsPercentMetric t.record_metrics _ _
          (All-append IsPercentMetric _ _ old
            (metrics_of-Percent t.record_zero_util name current ranged))
          old in
      let offered =
        put-AllEntries (λ k rs. All (IsInRange f) rs) name (sort_readings current) r.0.current
          (sort_readings-InRange current ranged)
          (subst (AllEntries (λ k rs. All (IsInRange f) rs)) (sym same.1) h.offered) in
      let before : InterfaceTask V = record r.0 {
        metrics = new_metrics;
        prev = put name (snapshots now rows) r.0.prev;
        current = put name (sort_readings current) r.0.current;
      } in
      let saved = save_prev-same name (snapshots now rows) before in
      record {
        recorded = subst (All IsPercentMetric) (sym saved.0) recorded;
        offered = subst (AllEntries (λ k rs. All (IsInRange f) rs)) (sym saved.1) offered;
      }

  poll_each-AreInRange :
      IsFloat f
      → (ps : List (Poll V)) (t : InterfaceTask V) → AreInRange t
      → AreInRange (poll_each f ps t)
  unfolding poll_each
  poll_each-AreInRange law [] t h = h
  poll_each-AreInRange law (p ∷ ps) t h =
      poll_each-AreInRange law ps (poll_one f p.now p.name p.rows t).0
        (poll_one-AreInRange law p.now p.name p.rows t h)

-- Over any polls from a task that has recorded nothing yet, with whatever counters the store kept,
-- clocks that go back and counters that wrap: every utilisation that is recorded as a metric lies
-- between 0 and 100, and so does every sample that is offered to the thresholds and is not a count of
-- errors.
pub utilisation_in_range :
    {V : Type 0} (f : Floats V) (law : IsFloat f) (ps : List (Poll V)) (hosts : Dict String String)
    (t : InterfaceTask V)
    → t.metrics ≡ []
    → t.current ≡ []
    → let t' = poll_each f ps t in
      All (λ m. IsPercent f m.value) t'.metrics × All (IsFit f) (samples f hosts t'.current)
utilisation_in_range f law ps hosts t no_metrics no_rows =
    let start : AreInRange f t = record {
      recorded = subst (All (λ m. IsPercent f m.value)) (sym no_metrics) tt;
      offered = subst (AllEntries (λ name rs. All (IsInRange f) rs)) (sym no_rows) tt;
    } in
    let h = poll_each-AreInRange f law ps t start in
    (h.recorded, samples-Fit f hosts (poll_each f ps t).current h.offered)
