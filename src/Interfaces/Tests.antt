-- ===== src/Interfaces/Tests.antt =====
-- The theorems on interface_poll.py at a port of 1 Gbit/s, with whole numbers in place of floats.
use aruba_network_agent.Prelude.{
  ℕ, ◌*◌, ◌-◌, ◌/◌, String, ◌≡◌, refl, true, false, none, some, List, [], ◌∷◌, ◌++◌, ltb, leb, All,
  arith,
}
use aruba_network_agent.Prelude.Dict.{Dict}
use aruba_network_agent.Interfaces.{
  Floats, IsFloat, ℤ, pos, negsuc, PortRow, InterfaceTask, samples,
}
use aruba_network_agent.Interfaces.Percent.{IsPercent}
use aruba_network_agent.Interfaces.Bounds.{Poll, poll_each, IsFit, utilisation_in_range}
use aruba_network_agent.Interfaces.Restart.{new_process, restart_unseen}

-- With no quotient by zero, and none of a negative number
abbrev whole_quotient : ℤ → ℕ → ℕ
whole_quotient (pos n) x = n / x
whole_quotient (negsuc n) x = 0

-- Whole numbers, none of them NaN
abbrev whole : Floats ℕ
whole = record {
  zero = 0;
  hundred = 100;
  of_int = λ n. n;
  minus = λ x y. x - y;
  scale = λ n x. n * x;
  quotient = whole_quotient;
  product = λ x y. x * y;
  round2 = λ x. x;
  less = ltb;
  less_eq = leb;
}

whole-IsFloat : IsFloat whole
whole-IsFloat = record {
  zero_hundred = refl;
  hundred_self = refl;
  less_less_eq = λ x y h. ground arith;
  is_nan = λ x. false;
  nan_less = λ x y h. ground arith;
  quotient_nonneg = λ n x h. ground arith;
  product_nan = λ x h. ground arith;
  product_nonneg = λ x h. ground arith;
  round2_monotone = λ x y h. h;
  round2_zero = refl;
  round2_hundred = refl;
}

abbrev port : ℕ → ℕ → PortRow
port octets_in octets_out = record {
  ifindex = "7";
  name = "1/1/7";
  speed_mbps = 1000;
  hc_in = octets_in;
  hc_out = octets_out;
  crc_err = 2;
}

abbrev first_polls : List (Poll ℕ)
first_polls =
    record { now = 100; name = "sw1"; rows = some (("7", port 1000 2000) ∷ []) }
    ∷ record { now = 130; name = "sw2"; rows = none }
    ∷ []

abbrev later_polls : List (Poll ℕ)
later_polls =
    record { now = 160; name = "sw1"; rows = some (("7", port 15000001000 3000) ∷ []) } ∷ []

abbrev task : InterfaceTask ℕ
task = record {
  record_metrics = true;
  record_zero_util = true;
  prev = [];
  current = [];
  metrics = [];
  persists = true;
  counters = [];
}

abbrev hosts : Dict String String
hosts = ("sw1", "10.0.0.1") ∷ []

utilisation_in_range_example :
    let t = poll_each whole (first_polls ++ later_polls) task in
    All (λ m. IsPercent whole m.value) t.metrics × All (IsFit whole) (samples whole hosts t.current)
utilisation_in_range_example =
    utilisation_in_range whole whole-IsFloat (first_polls ++ later_polls) hosts task refl refl

restart_unseen_example :
    (poll_each whole later_polls (new_process (poll_each whole first_polls task))).metrics
    ≡ (poll_each whole later_polls (poll_each whole first_polls task)).metrics
restart_unseen_example = restart_unseen whole first_polls later_polls task refl refl
