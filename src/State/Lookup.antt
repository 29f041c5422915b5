-- ===== src/State/Lookup.antt =====
-- Lookups by host: what the other components read from the registry.
use aruba_network_agent.Prelude.{
  String, ◌≡◌, ◌≢◌, refl, ◌⊎◌, false, ◌==◌, Bool-cases, inl, inr, Option, none, some, [], ◌∷◌, All,
  arith, string_Eq, ==_iff, ==_self,
}
use aruba_network_agent.Prelude.Dict.{Dict, get, values, IsUnique}
use aruba_network_agent.Prelude.Dict.Entries.{AllEntries, get-AllEntries}
use aruba_network_agent.State.Data.{SwitchState, AgentState}
use aruba_network_agent.State.Ops.{
  first_by_host, get_vendor_for_host, get_hostname_for_host, get_snmp_profile_for_host,
  get_mode_for_host,
}
use aruba_network_agent.State.WellFormed.{IsGood, IsWellFormed}

-- What a lookup by host answers: the first switch registered with it, or that there is none.
abbrev HostAnswer : String → Dict String SwitchState → Option SwitchState → Type 0
HostAnswer host d none = All (λ sw. sw.host ≢ host) (values d)
HostAnswer host d (some sw) = (sw.host ≡ host) × (get sw.name d ≡ some sw)

HostAnswer-cons :
    (host k : String) (sw : SwitchState) (d : Dict String SwitchState) (o : Option SwitchState)
    → get k d ≡ none
    → (sw.host == host) ≡ false
    → HostAnswer host d o
    → HostAnswer host ((k, sw) ∷ d) o
HostAnswer-cons host k sw d none fresh other h = (λ e. ground (arith, ==_iff sw.host host), h)
HostAnswer-cons host k sw d (some found) fresh other h =
    (h.0, unfold get in ground (arith, ==_iff k found.name))

first_by_host-HostAnswer :
    (host : String) (d : Dict String SwitchState)
    → IsUnique d
    → AllEntries IsGood d
    → HostAnswer host d (first_by_host host (values d))
unfolding first_by_host
first_by_host-HostAnswer host [] u g = tt
first_by_host-HostAnswer host ((k, sw) ∷ d) u g = elim (Bool-cases (sw.host == host)) [
  | inl e ↦ rw e ((==_iff sw.host host).0 e, unfold get in ground (arith, ==_self k))
  | inr e ↦ rw e (
      HostAnswer-cons host k sw d (first_by_host host (values d)) u.0 e
        (first_by_host-HostAnswer host d u.1 g.1))
]

-- What the tasks learn of a host: the fields of one registered switch that has it, or the defaults
-- where none has.
abbrev pub IsHostView : String → AgentState → Type 0
IsHostView host s =
    ((sw : SwitchState) × (sw.host ≡ host)
      × (get sw.name s.switches ≡ some sw)
      × (get_vendor_for_host host s ≡ sw.vendor)
      × (get_hostname_for_host host s ≡ sw.hostname)
      × (get_snmp_profile_for_host host s ≡ sw.snmp_profile)
      × (get_mode_for_host host s ≡ sw.monitor_mode))
    ⊎ (All (λ sw. sw.host ≢ host) (values s.switches)
        × (get_vendor_for_host host s ≡ "")
        × (get_hostname_for_host host s ≡ "")
        × (get_snmp_profile_for_host host s ≡ "")
        × (get_mode_for_host host s ≡ "auto"))

-- The four lookups by host answer from the same registered switch, the one that `get` finds under
-- its name, or no registered switch has the host and they answer with their defaults.
pub lookups_agree : (s : AgentState) (host : String) → IsWellFormed s → IsHostView host s
unfolding get_vendor_for_host get_hostname_for_host get_snmp_profile_for_host get_mode_for_host
lookups_agree s host h =
    go (first_by_host host (values s.switches)) refl
      (first_by_host-HostAnswer host s.switches h.unique h.good)
  where
    go :
        (o : Option SwitchState)
        → first_by_host host (values s.switches) ≡ o
        → HostAnswer host s.switches o
        → IsHostView host s
    go none e a = inr (a, ground arith, ground arith, ground arith, ground arith)
    go (some sw) e a =
        let g = get-AllEntries IsGood sw.name sw s.switches h.good a.1 in
        inl (sw, a.0, a.1, ground arith, ground arith, ground arith, ground arith)
