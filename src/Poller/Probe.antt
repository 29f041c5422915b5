-- ===== src/Poller/Probe.antt =====
-- The reachability paths: SNMP with discovery, REST, ping and SSH, and the ladder over them.
use aruba_network_agent.Prelude.{
  ℕ, ◌+◌, ◌*◌, String, Bool, true, false, not, ◌&&◌, ◌||◌, Option, none, some, [], ◌∷◌, ◌==◌,
  string_Eq, nat_eq, ltb, if◌then◌else◌,
}
use aruba_network_agent.Prelude.Dict.{get}
use aruba_network_agent.Prelude.Text.{starts_with}
use aruba_network_agent.State.{
  SwitchState, AgentState, is_blank, update_switch, new_vendor, new_profile, new_hostname,
}
use aruba_network_agent.Poller.Data.{Monitor, Network, exit_code, ping_failed, rest_failed, session}

-- Microseconds in a second.
abbrev pub second : ℕ
second = 1000000

-- `_CLASSIFICATION_COOLDOWN_SECONDS`
abbrev pub classification_cooldown : ℕ
classification_cooldown = 300 * second

-- What a probe returns, with the monitor and the state as it leaves them.
pub record Probed : Type 0 where
  pub ok : Bool
  pub snmp_ok : Bool
  pub monitor : Monitor
  pub state : AgentState

-- `profile_name or None`, as `SnmpAgent` reads it
abbrev pub profile_arg : String → Option String
profile_arg p = if is_blank p then none else some p

abbrev pub is_cooling : ℕ → Option ℕ → Bool
is_cooling now none = false
is_cooling now (some t) = ltb now t

-- The hostname is taken over where the switch has none of its own yet.
unfoldable pub learn_hostname : Option String → SwitchState → Monitor → AgentState → AgentState
learn_hostname found sw m s =
    if is_blank sw.hostname || sw.hostname == m.name
    then elim found [
      | none ↦ s
      | some h ↦
          if not (is_blank h) && not (h == m.name)
          then update_switch m.name (new_hostname h ∷ []) s
          else s
    ]
    else s

-- The part of `_poll_snmp` below "Pinned profile path".
unfoldable pub poll_profile : Network → Option String → SwitchState → Monitor → AgentState → Probed
unfolding learn_hostname
poll_profile net profile sw m s =
    if net.snmp_reachable profile
    then record {
      ok = true;
      snmp_ok = true;
      monitor = m;
      state = learn_hostname (net.sys_name profile) sw m s;
    }
    else record { ok = false; snmp_ok = true; monitor = m; state = s }

-- `_poll_snmp`; the field `snmp_ok` has no meaning here.
unfoldable pub poll_snmp : ℕ → Network → Monitor → AgentState → Probed
unfolding poll_profile
poll_snmp now net m s = elim (get m.name s.switches) [
  | none ↦ record { ok = false; snmp_ok = true; monitor = m; state = s }
  | some sw ↦
      if not (is_blank sw.snmp_profile)
      then poll_profile net (some sw.snmp_profile) sw m s
      else if is_cooling now m.classification_cooldown_until
      then record { ok = false; snmp_ok = true; monitor = m; state = s }
      else elim net.detect [
        | none ↦ poll_profile net none sw m s
        | some none ↦ record {
          ok = false;
          snmp_ok = true;
          monitor = record m {
            classification_cooldown_until = some (now + classification_cooldown);
          };
          state = s;
        }
        | some (some (vendor, profile)) ↦
            poll_profile net (profile_arg profile) sw
              (record m { classification_cooldown_until = none })
              (update_switch m.name (new_vendor vendor ∷ new_profile profile ∷ []) s)
      ]
]

-- `_poll_icmp`
unfoldable pub poll_icmp : Network → Bool
poll_icmp net = elim net.ping [ exit_code c ↦ nat_eq c 0 | ping_failed ↦ false ]

-- `_ssh_reachable`: the banner begins with "SSH-"
unfoldable pub ssh_reachable : Network → Bool
unfolding starts_with
ssh_reachable net = elim net.banner [
  | none ↦ false
  | some bytes ↦ starts_with (b'S' ∷ b'S' ∷ b'H' ∷ b'-' ∷ []) bytes
]

-- `_poll_rest`
unfoldable pub poll_rest : Network → Monitor → AgentState → Probed
poll_rest net m s = elim net.rest [
  | rest_failed ↦ record { ok = false; snmp_ok = true; monitor = m; state = s }
  | session logged_in reachable hostname ↦ record {
    ok = logged_in && reachable;
    snmp_ok = true;
    monitor = m;
    state =
        if logged_in && reachable
        then elim hostname [
          | none ↦ s
          | some h ↦
              if not (is_blank h) && not (h == m.name)
              then update_switch m.name (new_hostname h ∷ []) s
              else s
        ]
        else s;
  }
]

-- `_poll_reachability`: SNMP first, then ping, then SSH.
unfoldable pub poll_reachability : ℕ → Network → Monitor → AgentState → Probed
unfolding poll_icmp ssh_reachable
poll_reachability now net m s =
    let p = poll_snmp now net m s in
    if p.ok
    then record p { ok = true; snmp_ok = true }
    else if not (poll_icmp net)
    then record p { ok = false; snmp_ok = true }
    else if ssh_reachable net
    then record p { ok = true; snmp_ok = false }
    else record p { ok = false; snmp_ok = true }

-- `mode in ("snmp_ro", "snmp_rw", "auto")`
abbrev pub is_snmp_mode : String → Bool
is_snmp_mode mode = mode == "snmp_ro" || mode == "snmp_rw" || mode == "auto"

-- The dispatch on the mode in `_poll`.
unfoldable pub probe : ℕ → Network → String → Monitor → AgentState → Probed
unfolding poll_icmp
probe now net mode m s =
    if mode == "icmp"
    then record { ok = poll_icmp net; snmp_ok = true; monitor = m; state = s }
    else if m.has_snmp && is_snmp_mode mode
    then poll_reachability now net m s
    else poll_rest net m s
