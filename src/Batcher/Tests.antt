-- ===== src/Batcher/Tests.antt =====
-- The theorems on alert_batcher.py at two DOWN events and a recovery within one window.
use aruba_network_agent.Prelude.{◌≡◌, List, [], ◌∷◌, ◌++◌, string_Eq}
use aruba_network_agent.Batcher.{new, Action, added, fired, run}
use aruba_network_agent.Batcher.Delivery.{delivered, waiting, nothing_lost}
use aruba_network_agent.Batcher.Timers.{IsArmed, run-IsArmed}

abbrev actions : List Action
actions =
    added "down" ("core", "core is down")
    ∷ added "restored" ("core", "core is back")
    ∷ added "down" ("access", "access is down")
    ∷ fired "down"
    ∷ fired "down"
    ∷ added "down" ("core", "core is down again")
    ∷ []

nothing_lost_example :
    let b = run actions (new 30) in
    delivered "down" b.sent ++ waiting "down" b
    ≡ ("core", "core is down") ∷ ("access", "access is down") ∷ ("core", "core is down again") ∷ []
nothing_lost_example = nothing_lost 30 actions "down"

run-IsArmed_example : IsArmed (run actions (new 30))
run-IsArmed_example = run-IsArmed 30 actions
