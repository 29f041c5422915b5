-- ===== src/Thresholds/Tests.antt =====
-- The theorems on thresholds.py at a processor load over 90 for ten seconds, with loads as numbers.
use aruba_network_agent.Prelude.{
  ℕ, String, ◌≡◌, refl, Bool, true, false, none, some, List, [], ◌∷◌, ltb, leb, string_Eq, pair_Eq,
  arith,
}
use aruba_network_agent.Prelude.Dict.{get}
use aruba_network_agent.Thresholds.{Comparison, Rule, Sample, above, host_in, match_scope}
use aruba_network_agent.Thresholds.Alternation.{firing}
use aruba_network_agent.Thresholds.Sustained.{
  InOrder, IsLive, readings, observe_each, breach_start, last_time, is_sustained,
  firing_iff_sustained,
}
use aruba_network_agent.Thresholds.Runner.{Job, IsCounted, new_task, run_tasks, emails_alternate}

instance abbrev load_Comparison : Comparison ℕ
load_Comparison = record { less = ltb; less_eq = leb }

abbrev hot : Rule ℕ
hot = record {
  name = "hot";
  enabled = true;
  metric = "cpu";
  operator = above;
  value = some 90;
  duration = some 10;
  included = "core" ∷ [];
  excluded = [];
  severity = "critical";
}

abbrev core_cpu : Sample ℕ
core_cpu = record {
  device = "core";
  host = "10.0.0.1";
  metric = "cpu";
  instance_name = "";
  value = none;
}

abbrev no_networks : String → String → Bool
no_networks host pattern = false

hot-IsLive : IsLive no_networks hot 90 10 core_cpu
unfolding match_scope host_in
hot-IsLive = record {
  enabled = refl;
  known = refl;
  limited = refl;
  lasting = refl;
  measured = refl;
  in_scope = refl;
}

abbrev loads : List (ℕ × ℕ)
loads = (5, 50) ∷ (10, 95) ∷ (15, 99) ∷ (20, 91) ∷ []

loads-InOrder : InOrder 0 (readings hot 90 loads)
unfolding readings
loads-InOrder = ground arith

firing_iff_sustained_example :
    firing ("hot", ("core", "")) (observe_each no_networks hot core_cpu loads [])
    ≡ is_sustained 10
        (last_time 0 (readings hot 90 loads))
        (breach_start none (readings hot 90 loads))
firing_iff_sustained_example =
    firing_iff_sustained no_networks hot 90 10 core_cpu loads [] hot-IsLive loads-InOrder
      (unfold get in refl)

abbrev jobs : List (Job ℕ)
jobs =
    (10, (hot ∷ [], some (record core_cpu { value = some 95 } ∷ []) ∷ none ∷ []))
    ∷ (20, (hot ∷ [], some (record core_cpu { value = some 96 } ∷ []) ∷ []))
    ∷ (30, (hot ∷ [], some (record core_cpu { value = some 20 } ∷ []) ∷ []))
    ∷ []

emails_alternate_example : IsCounted (run_tasks no_networks jobs (new_task true true))
emails_alternate_example = emails_alternate no_networks jobs true true
