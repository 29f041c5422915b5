-- ===== src/State/Mute.antt =====
-- Alert mutes: when `alerts_suppressed` says yes, and what it leaves behind.
use aruba_network_agent.Prelude.{
  ℕ, String, ◌≡◌, ◌≢◌, Bool, true, false, ◌&&◌, ltb, Option, none, some, arith, string_Eq, ==_iff,
  ==_self, if◌then◌else◌,
}
use aruba_network_agent.Prelude.Dict.{get, get-put}
use aruba_network_agent.State.Data.{SwitchState, AgentState}
use aruba_network_agent.State.Snapshot.{save}
use aruba_network_agent.State.Ops.{has_expired, set_alert_mute, alerts_suppressed}

-- A mute with no time always holds, one with a time holds before it.
abbrev pub holds_at : ℕ → Option ℕ → Bool
holds_at now none = true
holds_at now (some t) = ltb now t

-- A registered switch that is muted until a time is silent at every time before it and at none from it on, one muted
-- with no time is silent at any time, and one unmuted is not.
pub suppressed-mute :
    (s : AgentState) (k : String) (sw : SwitchState) (muted : Bool) (until : Option ℕ) (now : ℕ)
    → get k s.switches ≡ some sw
    → (alerts_suppressed now k (set_alert_mute k muted until s).0).1 ≡ (muted && holds_at now until)
unfolding set_alert_mute alerts_suppressed save
suppressed-mute s k sw muted until now e = ground (
  arith,
  get-put k k (record sw { alerts_muted = muted; mute_until = if muted then until else none })
      s.switches,
  ==_self k,
)

-- Once a timed mute has been seen to end, it is over at every later call, whatever the clock says,
-- and any other switch is as it was.
pub suppressed_once :
    (s : AgentState) (k j : String) (sw : SwitchState) (now later : ℕ)
    → get k s.switches ≡ some sw
    → has_expired now sw.mute_until ≡ true
    → k ≢ j
    → let s' = (alerts_suppressed now k s).0 in
      ((alerts_suppressed later k s').1 ≡ false) × (get j s'.switches ≡ get j s.switches)
unfolding alerts_suppressed save
suppressed_once s k j sw now later e x ne = (
  ground (
    arith,
    get-put k k (record sw { alerts_muted = false; mute_until = none }) s.switches,
    ==_self k,
  ),
  ground (
    arith,
    get-put k j (record sw { alerts_muted = false; mute_until = none }) s.switches,
    ==_iff k j,
  ),
)
