-- ===== src/Poller/Ladder.antt =====
-- The cooldown of discovery in `_poll_snmp`.
use aruba_network_agent.Prelude.{ℕ, ◌+◌, ◌<◌, ◌≡◌, true, false, none, some, arith, string_Eq}
use aruba_network_agent.Prelude.Dict.{get}
use aruba_network_agent.State.{SwitchState, AgentState, is_blank}
use aruba_network_agent.Poller.Data.{Monitor, Network}
use aruba_network_agent.Poller.Probe.{is_cooling, classification_cooldown, poll_snmp}

-- After a discovery in which no profile worked, the SNMP step of an unclassified switch is down at
-- every time in the next 300 seconds, whatever the network would answer, and changes nothing.
pub discovery_cools_down :
    (now later : ℕ) (net net' : Network) (m : Monitor) (s : AgentState) (sw : SwitchState)
    → get m.name s.switches ≡ some sw
    → is_blank sw.snmp_profile ≡ true
    → is_cooling now m.classification_cooldown_until ≡ false
    → net.detect ≡ some none
    → later < now + classification_cooldown
    → let p = poll_snmp now net m s in
      (p.ok ≡ false)
      × (poll_snmp later net' p.monitor p.state
          ≡ record { ok = false; snmp_ok = true; monitor = p.monitor; state = s })
unfolding poll_snmp
discovery_cools_down now later net net' m s sw e b c d l = (ground arith, ground arith)
