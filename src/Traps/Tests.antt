-- ===== src/Traps/Tests.antt =====
-- The theorem on trap_receiver.py at a fan that fails twice within the window.
use aruba_network_agent.Prelude.{ℕ, refl, true, false, none, List, [], ◌∷◌, arith}
use aruba_network_agent.Prelude.Text.{codes}
use aruba_network_agent.State.{JsonStore, empty_state}
use aruba_network_agent.Traps.Handler
use aruba_network_agent.Traps.Spaced.{IsSpaced, times}
use aruba_network_agent.Traps.Rate.{Arrival, InOrder, arrive, emails_apart}

abbrev no_file : JsonStore
no_file = record { path_set = false; readable = true; writable = true; contents = none }

abbrev fan_fails : ℕ → Arrival
fan_fails time = record {
  time = time;
  source_ip = "10.0.0.1";
  trap_oid = codes "1.3.6.1.4.1.1";
  varbinds = (codes "1.3.6.1.4.1.2", codes "Fan 1 failed") ∷ [];
  name_hint = [];
  state = empty_state no_file;
}

abbrev quiet : Handler.Receiver
quiet = record {
  alert_policy = codes "critical";
  alert_dedup = 300;
  recent = [];
  stored = [];
  sent = [];
}

abbrev arrivals : List Arrival
arrivals = fan_fails 1000 ∷ fan_fails 1100 ∷ fan_fails 1301 ∷ []

arrivals-InOrder : InOrder 0 arrivals
arrivals-InOrder = ground arith

emails_apart_example :
    IsSpaced 300 (times ("10.0.0.1", codes "enterprise-hardware") (arrive arrivals quiet).sent)
emails_apart_example =
    emails_apart arrivals ("10.0.0.1", codes "enterprise-hardware") quiet arrivals-InOrder refl refl
