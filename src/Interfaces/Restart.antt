-- ===== src/Interfaces/Restart.antt =====
-- The counters that interface_poll.py keeps over a restart.
use aruba_network_agent.Prelude.{
  String, ◌≡◌, refl, sym, ap, ◌∙◌, Bool, true, false, Option, none, some, List, [], ◌∷◌, ◌++◌, ◌==◌,
  string_Eq, arith, Bool-cases, Option-cases, inl, inr, if◌then◌else◌,
}
use aruba_network_agent.Prelude.Dict.{Dict, get, put, get-put}
use aruba_network_agent.Interfaces.{
  Floats, PortRow, Snapshot, Metric, InterfaceTask, loadable, load_prev, last_counters, snapshots,
  written, save_prev, port_readings, metrics_of, poll_one,
}
use aruba_network_agent.Interfaces.Bounds.{Poll, poll_each}

-- A new process over the same store: what was in memory is gone.
unfoldable pub new_process : {V : Type 0} → InterfaceTask V → InterfaceTask V
new_process t = record t { prev = []; current = [] }

module _ {V : Type 0} where
  -- The counters that the next poll of a switch starts from.
  abbrev known : String → InterfaceTask V → Dict String (Snapshot V)
  known name t = (last_counters name t).1

  -- Two tasks that a poll does not tell apart.
  record IsAlike (s t : InterfaceTask V) : Type 0 where
    metrics : s.metrics ≡ t.metrics
    recording : s.record_metrics ≡ t.record_metrics
    zeros : s.record_zero_util ≡ t.record_zero_util
    keeping : s.persists ≡ true
    keeping_too : t.persists ≡ true
    store : s.counters ≡ t.counters
    same : (name : String) → known name s ≡ known name t

  -- The counters of a switch in the store, as they would be loaded.
  abbrev stored : String → InterfaceTask V → Dict String (Snapshot V)
  stored name t = elim (get name t.counters) [ none ↦ [] | some raw ↦ loadable raw ]

  loadable-written : (d : Dict String (Snapshot V)) → loadable (written d) ≡ d
  unfolding loadable
  loadable-written [] = refl
  loadable-written (e ∷ d) = ap (λ r. (e.0, e.1) ∷ r) (loadable-written d)

  last_counters-config :
      (name : String) (t : InterfaceTask V)
      → let t' = (last_counters name t).0 in
        (t'.metrics ≡ t.metrics)
        × (t'.record_metrics ≡ t.record_metrics)
        × (t'.record_zero_util ≡ t.record_zero_util)
        × (t'.persists ≡ t.persists)
        × (t'.counters ≡ t.counters)
  unfolding last_counters load_prev
  last_counters-config name t = ground arith

  known-unloaded :
      (name j : String) (t : InterfaceTask V)
      → (name == j) ≡ false
      → get j (last_counters name t).0.prev ≡ get j t.prev
  unfolding last_counters load_prev
  known-unloaded name j t other = elim (Option-cases (get name t.prev)) [
    | inr (d, e) ↦ ground arith
    | inl e ↦ elim (Option-cases (get name t.counters)) [
      | inl g ↦ ground (arith, get-put name j [] t.prev)
      | inr (raw, g) ↦ ground (arith, get-put name j (loadable raw) t.prev)
    ]
  ]

  known-get :
      (j : String) (t : InterfaceTask V)
      → t.persists ≡ true
      → known j t ≡ (elim (get j t.prev) as (λ _. Dict String (Snapshot V)) [
        | none ↦ stored j t
        | some d ↦ d
      ])
  unfolding last_counters load_prev
  known-get j t keeps = ground arith

  module _ (f : Floats V) where
    -- What a poll with an answer does.
    poll_one-effect :
        (now : V) (name : String) (rows : Dict String PortRow) (t : InterfaceTask V)
        → t.persists ≡ true
        → let t' = (poll_one f now name (some rows) t).0 in
          (t'.metrics ≡ (
            if t.record_metrics
            then t.metrics
              ++ metrics_of f t.record_zero_util name (port_readings f now (known name t) rows)
            else t.metrics))
          × (t'.record_metrics ≡ t.record_metrics)
          × (t'.record_zero_util ≡ t.record_zero_util)
          × (t'.persists ≡ true)
          × (t'.counters ≡ put name (written (snapshots now rows)) t.counters)
          × (t'.prev ≡ put name (snapshots now rows) (last_counters name t).0.prev)
    unfolding poll_one save_prev
    poll_one-effect now name rows t keeps = let same = last_counters-config name t in ground arith

    poll_one-known :
        (now : V) (name j : String) (rows : Dict String PortRow) (t : InterfaceTask V)
        → t.persists ≡ true
        → let t' = (poll_one f now name (some rows) t).0 in
          (known j t' ≡ (if name == j then snapshots now rows else known j t))
          × (stored j t' ≡ (if name == j then snapshots now rows else stored j t))
    poll_one-known now name j rows t keeps =
        let effect = poll_one-effect now name rows t keeps in
        let t' = (poll_one f now name (some rows) t).0 in
        let mine = known-get j t' effect.3 in
        let old = known-get j t keeps in
        let there =
          ap (get j) effect.5 ∙ get-put name j (snapshots now rows) (last_counters name t).0.prev in
        let kept = ap (get j) effect.4 ∙ get-put name j (written (snapshots now rows)) t.counters in
        let back = loadable-written (snapshots now rows) in
        elim (Bool-cases (name == j)) [
          | inl e ↦ (ground arith, ground arith)
          | inr e ↦ let other = known-unloaded name j t e in (ground arith, ground arith)
        ]

    -- The metrics after a poll, from what it reads of the task.
    abbrev recorded :
        Bool
        → Bool
        → String
        → V
        → Dict String PortRow
        → Dict String (Snapshot V)
        → List (Metric V)
        → List (Metric V)
    recorded recording zeros name now rows prev ms =
        if recording then ms ++ metrics_of f zeros name (port_readings f now prev rows) else ms

    poll_one-IsAlike :
        (now : V) (name : String) (rows : Option (Dict String PortRow)) (s t : InterfaceTask V)
        → IsAlike s t
        → IsAlike (poll_one f now name rows s).0 (poll_one f now name rows t).0
    poll_one-IsAlike now name none s t h = unfold poll_one in h
    poll_one-IsAlike now name (some rows) s t h =
        let a = poll_one-effect now name rows s h.keeping in
        let b = poll_one-effect now name rows t h.keeping_too in
        record {
          metrics =
              a.0
              ∙ ap (λ x. recorded x s.record_zero_util name now rows (known name s) s.metrics)
                  h.recording
              ∙ ap (λ x. recorded t.record_metrics x name now rows (known name s) s.metrics) h.zeros
              ∙ ap (λ x. recorded t.record_metrics t.record_zero_util name now rows x s.metrics)
                  (h.same name)
              ∙ ap
                  (λ x. recorded t.record_metrics t.record_zero_util name now rows (known name t) x)
                  h.metrics
              ∙ sym b.0;
          recording = a.1 ∙ h.recording ∙ sym b.1;
          zeros = a.2 ∙ h.zeros ∙ sym b.2;
          keeping = a.3;
          keeping_too = b.3;
          store = a.4 ∙ ap (put name (written (snapshots now rows))) h.store ∙ sym b.4;
          same = λ j.
              (poll_one-known now name j rows s h.keeping).0
              ∙ ap (λ d. if name == j then snapshots now rows else d) (h.same j)
              ∙ sym (poll_one-known now name j rows t h.keeping_too).0;
        }

    poll_each-IsAlike :
        (ps : List (Poll V)) (s t : InterfaceTask V)
        → IsAlike s t
        → IsAlike (poll_each f ps s) (poll_each f ps t)
    unfolding poll_each
    poll_each-IsAlike [] s t h = h
    poll_each-IsAlike (p ∷ ps) s t h =
        poll_each-IsAlike ps (poll_one f p.now p.name p.rows s).0
          (poll_one f p.now p.name p.rows t).0 (poll_one-IsAlike p.now p.name p.rows s t h)

    -- What is in memory of the counters is in the store.
    record IsSaved (t : InterfaceTask V) : Type 0 where
      keeping : t.persists ≡ true
      saved : (name : String) → known name t ≡ stored name t

    poll_one-IsSaved :
        (now : V) (name : String) (rows : Option (Dict String PortRow)) (t : InterfaceTask V)
        → IsSaved t
        → IsSaved (poll_one f now name rows t).0
    poll_one-IsSaved now name none t h = unfold poll_one in h
    poll_one-IsSaved now name (some rows) t h = record {
      keeping = (poll_one-effect now name rows t h.keeping).3;
      saved = λ j.
          let r = poll_one-known now name j rows t h.keeping in
          r.0 ∙ ap (λ d. if name == j then snapshots now rows else d) (h.saved j) ∙ sym r.1;
    }

    poll_each-IsSaved :
        (ps : List (Poll V)) (t : InterfaceTask V) → IsSaved t → IsSaved (poll_each f ps t)
    unfolding poll_each
    poll_each-IsSaved [] t h = h
    poll_each-IsSaved (p ∷ ps) t h =
        poll_each-IsSaved ps (poll_one f p.now p.name p.rows t).0
          (poll_one-IsSaved p.now p.name p.rows t h)

    new_process-IsAlike : (t : InterfaceTask V) → IsSaved t → IsAlike (new_process t) t
    unfolding new_process get
    new_process-IsAlike t h = record {
      metrics = refl;
      recording = refl;
      zeros = refl;
      keeping = h.keeping;
      keeping_too = h.keeping;
      store = refl;
      same = λ j. known-get j (new_process t) h.keeping ∙ sym (h.saved j);
    }

-- A restart does not show in the metrics: with a store that keeps the counters, the polls before and
-- after a restart record the very metrics that they record without one, from a task that has polled
-- nothing yet.
pub restart_unseen :
    {V : Type 0} (f : Floats V) (ps qs : List (Poll V)) (t : InterfaceTask V)
    → t.persists ≡ true
    → t.prev ≡ []
    → (poll_each f qs (new_process (poll_each f ps t))).metrics
      ≡ (poll_each f qs (poll_each f ps t)).metrics
unfolding get
restart_unseen f ps qs t keeps fresh =
    let start : IsSaved f t = record {
      keeping = keeps;
      saved = λ j. known-get j t keeps ∙ ground arith;
    } in
    (poll_each-IsAlike f qs (new_process (poll_each f ps t)) (poll_each f ps t)
      (new_process-IsAlike f (poll_each f ps t) (poll_each-IsSaved f ps t start))).metrics
