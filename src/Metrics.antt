-- ===== src/Metrics.antt =====
-- The process counters of aruba_agent/metrics.py. The text that a scrape gets is not here.
use aruba_network_agent.Prelude.{ℕ, ◌+◌, String, none, some, [], ◌∷◌, string_Eq}
use aruba_network_agent.Prelude.Dict.{Dict, get, put}

abbrev pub Counters : Type 0
Counters = Dict String ℕ

-- `_counters`
abbrev pub no_counts : Counters
no_counts =
    ("login_failures_total", 0)
    ∷ ("login_throttled_total", 0)
    ∷ ("login_success_total", 0)
    ∷ ("manual_trigger_total", 0)
    ∷ []

-- `inc` by one, as every call of it does: an unknown name is dropped.
unfoldable pub inc : String → Counters → Counters
inc name d = elim (get name d) [ none ↦ d | some n ↦ put name (n + 1) d ]
