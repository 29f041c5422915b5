-- ===== src/Traps/Handler.antt =====
-- The handler of trap_receiver.py. `now` is the clock in seconds. `stored` is what the trap store was
-- handed and `sent` what the notifier was, oldest first.
use aruba_network_agent.Prelude.{
  ℕ, ◌+◌, String, Bool, true, false, Option, none, some, List, [], ◌∷◌, ◌++◌, ltb, leb, length,
  string_Eq, pair_Eq, if◌then◌else◌,
}
use aruba_network_agent.Prelude.Dict.{Dict, get, put, values}
use aruba_network_agent.Prelude.Text.{text_Eq}
use aruba_network_agent.State.{AgentState, first_by_host}
use aruba_network_agent.Traps.Classify.{Binding, Trap, classify_trap, should_alert}

-- (switch, trap name)
abbrev pub TrapKey : Type 0
TrapKey = String × List ℕ

pub record Doc : Type 0 where
  pub time : ℕ
  pub source_ip : String
  pub switch : String
  pub trap : Trap
  pub varbinds : List Binding

pub record Receiver : Type 0 where
  pub alert_policy : List ℕ
  pub alert_dedup : ℕ
  pub recent : Dict TrapKey ℕ
  pub stored : List Doc
  pub sent : List Doc

-- `_host_to_switch`
unfoldable pub host_to_switch : String → AgentState → String
unfolding first_by_host
host_to_switch ip s = elim (first_by_host ip (values s.switches)) [ none ↦ ip | some sw ↦ sw.name ]

-- `self._recent.get(key, 0.0)`
abbrev pub or_zero : Option ℕ → ℕ
or_zero none = 0
or_zero (some t) = t

-- The entries that are not older than the window.
unfoldable pub prune : ℕ → ℕ → Dict TrapKey ℕ → Dict TrapKey ℕ
prune now window [] = []
prune now window (e ∷ d) =
    let rest = prune now window d in if leb now (e.1 + window) then e ∷ rest else rest

-- `_rate_ok`
unfoldable pub rate_ok : ℕ → TrapKey → Receiver → Receiver × Bool
unfolding prune
rate_ok now key r =
    if ltb now (or_zero (get key r.recent) + r.alert_dedup)
    then (r, false)
    else let recent = put key now r.recent in
      (
        record r {
          recent = if ltb 5000 (length recent) then prune now r.alert_dedup recent else recent;
        },
        true,
      )

-- The email of `handle_trap`, when the rate allows it.
unfoldable pub email : ℕ → Doc → Receiver → Receiver
unfolding rate_ok
email now doc r =
    let gate = rate_ok now (doc.switch, doc.trap.name) r in
    if gate.1 then record gate.0 { sent = gate.0.sent ++ doc ∷ [] } else gate.0

-- `handle_trap`
unfoldable pub handle_trap :
    ℕ → String → List ℕ → List Binding → List ℕ → AgentState → Receiver → Receiver × Doc
unfolding host_to_switch email
handle_trap now source_ip trap_oid bs name_hint s r =
    let trap = classify_trap trap_oid bs name_hint in
    let switch = host_to_switch source_ip s in
    let doc : Doc = record {
      time = now;
      source_ip = source_ip;
      switch = switch;
      trap = trap;
      varbinds = bs;
    } in
    let kept : Receiver = record r { stored = r.stored ++ doc ∷ [] } in
    (if should_alert trap r.alert_policy then email now doc kept else kept, doc)
