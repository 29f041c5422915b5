-- ===== src/Poller/Keeps.antt =====
-- The vital fields of a switch, UP or DOWN, failures, managed or not, and what leaves them alone.
use aruba_network_agent.Prelude.{
  ℕ, String, ◌≡◌, refl, ◌∙◌, Bool, false, Option, none, some, List, [], ◌∷◌, arith, string_Eq,
  Option-cases, inl, inr,
}
use aruba_network_agent.Prelude.Dict.{get, get-put_self}
use aruba_network_agent.State.{
  SwitchState, AgentState, save, Change, set_attrs, update_switch, set_snmp_health, set_os_version,
  alerts_suppressed, new_vendor, new_profile, new_hostname, new_down,
}
use aruba_network_agent.Poller.Data.{Monitor, Network, Alert, RestResult, rest_failed, session}
use aruba_network_agent.Poller.Probe.{
  Probed, profile_arg, learn_hostname, poll_profile, poll_snmp, poll_rest, poll_reachability, probe,
}
use aruba_network_agent.Poller.Alerts.{maybe_send_alert}
use aruba_network_agent.Poller.Poll.{
  resolve_version, maybe_resolve_vendor, maybe_resolve_os_version, note_success,
}

abbrev pub vitals_of : Option SwitchState → Option (Bool × ℕ × Bool)
vitals_of none = none
vitals_of (some sw) = some (sw.is_down, sw.failures, sw.unmanaged)

unfoldable pub vitals : String → AgentState → Option (Bool × ℕ × Bool)
vitals k s = vitals_of (get k s.switches)

pub get-update_switch :
    (k : String) (cs : List Change) (s : AgentState) (sw : SwitchState)
    → get k s.switches ≡ some sw
    → get k (update_switch k cs s).switches ≡ some (set_attrs sw cs)
unfolding update_switch save
get-update_switch k cs s sw e = ground (arith, get-put_self k (set_attrs sw cs) s.switches)

-- Changes that leave the vital fields of any switch.
abbrev IsCosmetic : List Change → Type 0
IsCosmetic cs = (sw : SwitchState) → vitals_of (some (set_attrs sw cs)) ≡ vitals_of (some sw)

pub update_switch-vitals :
    (k : String) (cs : List Change) (s : AgentState)
    → IsCosmetic cs
    → vitals k (update_switch k cs s) ≡ vitals k s
unfolding vitals
update_switch-vitals k cs s h = elim (Option-cases (get k s.switches)) [
  | inl e ↦ unfold update_switch in ground arith
  | inr (sw, e) ↦ ground (arith, get-update_switch k cs s sw e, h sw)
]

hostname-vitals :
    (k h : String) (s : AgentState)
    → vitals k (update_switch k (new_hostname h ∷ []) s) ≡ vitals k s
hostname-vitals k h s = update_switch-vitals k _ s (λ sw. unfold set_attrs in refl)

vendor-vitals :
    (k v : String) (s : AgentState) → vitals k (update_switch k (new_vendor v ∷ []) s) ≡ vitals k s
vendor-vitals k v s = update_switch-vitals k _ s (λ sw. unfold set_attrs in refl)

discovery-vitals :
    (k v p : String) (s : AgentState)
    → vitals k (update_switch k (new_vendor v ∷ new_profile p ∷ []) s) ≡ vitals k s
discovery-vitals k v p s = update_switch-vitals k _ s (λ sw. unfold set_attrs in refl)

set_snmp_health-vitals :
    (k : String) (b : Bool) (s : AgentState) → vitals k (set_snmp_health k b s).0 ≡ vitals k s
unfolding vitals set_snmp_health save
set_snmp_health-vitals k b s = elim (Option-cases (get k s.switches)) [
  | inl e ↦ ground arith
  | inr (sw, e) ↦ ground (arith, get-put_self k (record sw { snmp_ok = b }) s.switches)
]

set_os_version-vitals :
    (k v : String) (s : AgentState) → vitals k (set_os_version k v s).0 ≡ vitals k s
unfolding vitals set_os_version save
set_os_version-vitals k v s = elim (Option-cases (get k s.switches)) [
  | inl e ↦ ground arith
  | inr (sw, e) ↦ ground (arith, get-put_self k (record sw { os_version = v }) s.switches)
]

alerts_suppressed-vitals :
    (now : ℕ) (k : String) (s : AgentState) → vitals k (alerts_suppressed now k s).0 ≡ vitals k s
unfolding vitals alerts_suppressed save
alerts_suppressed-vitals now k s = elim (Option-cases (get k s.switches)) [
  | inl e ↦ ground arith
  | inr (sw, e) ↦
      ground
        (arith, get-put_self k (record sw { alerts_muted = false; mute_until = none }) s.switches)
]

pub maybe_send_alert-vitals :
    (now : ℕ) (a : Alert) (m : Monitor) (s : AgentState)
    → vitals m.name (maybe_send_alert now a m s).state ≡ vitals m.name s
unfolding maybe_send_alert
maybe_send_alert-vitals now a m s = ground (arith, alerts_suppressed-vitals now m.name s)

learn_hostname-vitals :
    (found : Option String) (sw : SwitchState) (m : Monitor) (s : AgentState)
    → vitals m.name (learn_hostname found sw m s) ≡ vitals m.name s
unfolding learn_hostname
learn_hostname-vitals none sw m s = ground arith
learn_hostname-vitals (some h) sw m s = ground (arith, hostname-vitals m.name h s)

-- The settings of a monitor, which no poll changes.
abbrev pub SameSettings : Monitor → Monitor → Type 0
SameSettings a b =
    (b.name ≡ a.name)
    × (b.host ≡ a.host)
    × (b.failure_threshold ≡ a.failure_threshold)
    × (b.alert_dedup ≡ a.alert_dedup)
    × (b.has_batcher ≡ a.has_batcher)
    × (b.last_alert ≡ a.last_alert)

poll_profile-vitals :
    (net : Network) (profile : Option String) (sw : SwitchState) (m : Monitor) (s : AgentState)
    → let p = poll_profile net profile sw m s in
      (vitals m.name p.state ≡ vitals m.name s) × (p.monitor ≡ m)
unfolding poll_profile
poll_profile-vitals net profile sw m s =
    let l = learn_hostname-vitals (net.sys_name profile) sw m s in (ground arith, ground arith)

-- What a probe keeps, as one predicate.
abbrev pub Harmless : Monitor → AgentState → Probed → Type 0
Harmless m s p = (vitals m.name p.state ≡ vitals m.name s) × SameSettings m p.monitor

discovered-Harmless :
    (now : ℕ) (net : Network) (m : Monitor) (s : AgentState) (sw : SwitchState) (v p : String)
    → Harmless m s (
        poll_profile net
          (profile_arg p)
          sw
          (record m { classification_cooldown_until = none })
          (update_switch m.name (new_vendor v ∷ new_profile p ∷ []) s))
discovered-Harmless now net m s sw v p =
    let m' = record m { classification_cooldown_until = none } in
    let s' = update_switch m.name (new_vendor v ∷ new_profile p ∷ []) s in
    let h = poll_profile-vitals net (profile_arg p) sw m' s' in
    (h.0 ∙ discovery-vitals m.name v p s, rw h.1 (refl, refl, refl, refl, refl, refl))

profile-Harmless :
    (net : Network) (profile : Option String) (sw : SwitchState) (m : Monitor) (s : AgentState)
    → Harmless m s (poll_profile net profile sw m s)
profile-Harmless net profile sw m s =
    let h = poll_profile-vitals net profile sw m s in
    (h.0, rw h.1 (refl, refl, refl, refl, refl, refl))

poll_snmp-Harmless :
    (now : ℕ) (net : Network) (m : Monitor) (s : AgentState) → Harmless m s (poll_snmp now net m s)
poll_snmp-Harmless now net m s = elim (Option-cases (get m.name s.switches)) [
  | inl e ↦ unfold poll_snmp in ground arith
  | inr (sw, e) ↦
      let pinned = profile-Harmless net (some sw.snmp_profile) sw m s in
      let fallback = profile-Harmless net none sw m s in
      elim (Option-cases net.detect) [
        | inl d ↦ unfold poll_snmp in ground arith
        | inr (o, d) ↦ elim (Option-cases o) [
          | inl f ↦ unfold poll_snmp in ground arith
          | inr ((v, p), f) ↦
              let found = discovered-Harmless now net m s sw v p in unfold poll_snmp in ground arith
        ]
      ]
]

poll_rest-Harmless :
    (net : Network) (m : Monitor) (s : AgentState) → Harmless m s (poll_rest net m s)
poll_rest-Harmless net m s = go net.rest refl
  where
    go : (r : RestResult) → net.rest ≡ r → Harmless m s (poll_rest net m s)
    go rest_failed e = unfold poll_rest in ground arith
    go (session a b none) e = unfold poll_rest in ground arith
    go (session a b (some h)) e = unfold poll_rest in ground (arith, hostname-vitals m.name h s)

pub probe-Harmless :
    (now : ℕ) (net : Network) (mode : String) (m : Monitor) (s : AgentState)
    → Harmless m s (probe now net mode m s)
unfolding probe poll_reachability
probe-Harmless now net mode m s =
    let snmp = poll_snmp-Harmless now net m s in
    let rest = poll_rest-Harmless net m s in ground arith

maybe_resolve_vendor-vitals :
    (net : Network) (m : Monitor) (s : AgentState)
    → vitals m.name (maybe_resolve_vendor net m s) ≡ vitals m.name s
unfolding maybe_resolve_vendor
maybe_resolve_vendor-vitals net m s = elim (Option-cases (get m.name s.switches)) [
  | inl e ↦ ground arith
  | inr (sw, e) ↦ elim (Option-cases (net.vendor_lookup (profile_arg sw.snmp_profile))) [
    | inl f ↦ ground arith
    | inr (v, f) ↦ ground (arith, vendor-vitals m.name v s)
  ]
]

maybe_resolve_os_version-vitals :
    (net : Network) (m : Monitor) (s : AgentState)
    → vitals m.name (maybe_resolve_os_version net m s) ≡ vitals m.name s
maybe_resolve_os_version-vitals net m s = elim (Option-cases (get m.name s.switches)) [
  | inl e ↦ unfold maybe_resolve_os_version in ground arith
  | inr (sw, e) ↦
      let v = set_os_version-vitals m.name (resolve_version net m sw) s in
      unfold maybe_resolve_os_version in ground arith
]

-- The vital fields after a write of known changes.
pub written-vitals :
    (k : String) (cs : List Change) (s : AgentState) (sw : SwitchState)
    → get k s.switches ≡ some sw
    → vitals k (update_switch k cs s) ≡ vitals_of (some (set_attrs sw cs))
written-vitals k cs s sw e = let g = get-update_switch k cs s sw e in unfold vitals in ground arith

pub note_success-vitals :
    (now : ℕ) (snmp_ok : Bool) (net : Network) (m : Monitor) (s : AgentState) (sw : SwitchState)
    → get m.name s.switches ≡ some sw
    → vitals m.name (note_success now snmp_ok net m s) ≡ some (sw.is_down, 0, sw.unmanaged)
note_success-vitals now snmp_ok net m s sw e =
    unfold note_success set_attrs in
    maybe_resolve_os_version-vitals net m _
    ∙ maybe_resolve_vendor-vitals net m _
    ∙ set_snmp_health-vitals m.name snmp_ok _
    ∙ written-vitals m.name _ s sw e

pub down-vitals :
    (k : String) (b d u : Bool) (f : ℕ) (s : AgentState)
    → vitals k s ≡ some (d, f, u)
    → vitals k (update_switch k (new_down b ∷ []) s) ≡ some (b, f, u)
down-vitals k b d u f s h = elim (Option-cases (get k s.switches)) [
  | inl e ↦ unfold vitals in ground arith
  | inr (sw, e) ↦
      let w = written-vitals k (new_down b ∷ []) s sw e in unfold vitals set_attrs in ground arith
]
