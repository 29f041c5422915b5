-- ===== src/State/Effect.antt =====
-- What a call can do to the state, in six forms; the invariants go by these.
use aruba_network_agent.Prelude.{
  ℕ, String, ◌≡◌, ◌⊎◌, refl, Bool, false, true, not, ◌&&◌, Option, none, some, List, All, arith,
  ◌==◌, string_Eq, Bool-cases, Option-cases, inl, inr, if◌then◌else◌,
}
use aruba_network_agent.Prelude.Dict.{Dict, get, remove, contains}
use aruba_network_agent.State.Data.{SwitchState, new_switch, BackupRun, Row, AgentState, is_blank}
use aruba_network_agent.State.Snapshot.{save}
use aruba_network_agent.State.Ops.{
  store_switch, same_flag, has_expired, set_attrs, Change, write_mode, register_switch, pin_vendor,
  set_switch_profile, set_os_version, set_snmp_health, set_alert_mute, alerts_suppressed,
  set_unmanaged, remove_switch, update_switch, set_backup_result, set_device_inventory,
  set_arp_last_run,
}
use aruba_network_agent.State.Calls.{
  Call, register, pin, use_profile, record_version, record_health, mute, check_mute, manage, forget,
  update, edit_mode, backup_done, scan_done, arp_done, apply,
}
use aruba_network_agent.State.Kept.{Kept, core, KeepsChange, Keeps, SameIdentity, set_attrs-core}

pub data Effect (q : Kept) (s s' : AgentState) : Type 0 where
  nothing : s' ≡ s → Effect q s s'
  added :
      (k host mode : String)
      → get k s.switches ≡ none
      → (is_blank k ≡ false) × (is_blank host ≡ false) × (is_blank mode ≡ false)
      → s' ≡ save (store_switch k (new_switch k host mode) s)
      → Effect q s s'
  wrote :
      (k : String) (sw sw' : SwitchState)
      → get k s.switches ≡ some sw
      → SameIdentity sw sw'
      → (sw'.monitor_mode ≡ sw.monitor_mode) ⊎ (is_blank sw'.monitor_mode ≡ false)
      → s' ≡ save (store_switch k sw' s)
      → Effect q s s'
  ticked :
      (k : String) (sw sw' : SwitchState)
      → get k s.switches ≡ some sw
      → (sw'.monitor_mode ≡ sw.monitor_mode) ⊎ (is_blank sw'.monitor_mode ≡ false)
      → core q sw' ≡ core q sw
      → s' ≡ store_switch k sw' s
      → Effect q s s'
  dropped : (k : String) → s' ≡ save (record s { switches = remove k s.switches }) → Effect q s s'
  noted :
      (b : BackupRun) (devices : List Row) (scanned : Option ℕ) (arp : Dict String (Option ℕ))
      → s'
        ≡ save (record s {
          backup = b;
          device_inventory = devices;
          scanner_last_run = scanned;
          arp_last_run = arp;
        })
      → Effect q s s'

-- What a caller passes: a registration has a name, a host and a mode, and a page writes one of the
-- modes.
abbrev pub IsProper : Call → Type 0
IsProper (register name host mode) =
    (is_blank name ≡ false) × (is_blank host ≡ false) × (is_blank mode ≡ false)
IsProper (edit_mode name mode) = is_blank mode ≡ false
IsProper _ = Unit

update-Effect :
    (q : Kept) (k : String) (cs : List Change) (s : AgentState)
    → All (KeepsChange q) cs
    → Effect q s (update_switch k cs s)
unfolding update_switch
update-Effect q k cs s h = elim (Option-cases (get k s.switches)) [
  | inl e ↦ nothing (ground arith)
  | inr (sw, e) ↦
      let sw' = set_attrs sw cs in
      let (c, mode, same_switch) = set_attrs-core q cs sw h in
      elim (Bool-cases (same_flag sw.is_down sw'.is_down)) [
        | inl same ↦ ticked k sw sw' e (inl mode) (ground arith) (ground arith)
        | inr flip ↦ wrote k sw sw' e same_switch (inl mode) (ground arith)
      ]
]

write_mode-Effect :
    (q : Kept) (k mode : String) (s : AgentState)
    → is_blank mode ≡ false
    → q.mode ≡ false
    → Effect q s (write_mode k mode s)
unfolding write_mode
write_mode-Effect q k mode s p free = elim (Option-cases (get k s.switches)) [
  | inl e ↦ nothing (ground arith)
  | inr (sw, e) ↦
      ticked k sw (record sw { monitor_mode = mode }) e (inr p) (rw free refl) (ground arith)
]

register-Effect :
    (q : Kept) (k host mode : String) (s : AgentState)
    → IsProper (register k host mode)
    → Effect q s (register_switch k host mode s)
unfolding register_switch
register-Effect q k host mode s p = elim (Option-cases (get k s.switches)) [
  | inl e ↦ added k host mode e p (ground arith)
  | inr (sw, e) ↦ elim (Bool-cases (not (is_blank mode) && not (sw.monitor_mode == mode))) [
    | inl yes' ↦
        wrote k sw (record sw { monitor_mode = mode }) e (refl, refl) (inr p.2) (ground arith)
    | inr same ↦ nothing (ground arith)
  ]
]

-- A switch that is found and then always written back.
always_wrote :
    (q : Kept) (k : String) (s s' : AgentState) (f : SwitchState → SwitchState)
    → ((sw : SwitchState) → SameIdentity sw (f sw) × ((f sw).monitor_mode ≡ sw.monitor_mode))
    → ((sw : SwitchState) → get k s.switches ≡ some sw → s' ≡ save (store_switch k (f sw) s))
    → (get k s.switches ≡ none → s' ≡ s)
    → Effect q s s'
always_wrote q k s s' f same w n = elim (Option-cases (get k s.switches)) [
  | inl e ↦ nothing (n e)
  | inr (sw, e) ↦ wrote k sw (f sw) e (same sw).0 (inl (same sw).1) (w sw e)
]

-- A switch that is found, tested, and written back if the test fails.
wrote_unless :
    (q : Kept) (k : String) (s s' : AgentState) (test : SwitchState → Bool)
    (f : SwitchState → SwitchState)
    → ((sw : SwitchState) → SameIdentity sw (f sw) × ((f sw).monitor_mode ≡ sw.monitor_mode))
    → ((sw : SwitchState)
        → get k s.switches ≡ some sw
        → test sw ≡ false
        → s' ≡ save (store_switch k (f sw) s))
    → ((sw : SwitchState) → get k s.switches ≡ some sw → test sw ≡ true → s' ≡ s)
    → (get k s.switches ≡ none → s' ≡ s)
    → Effect q s s'
wrote_unless q k s s' test f same w u n = elim (Option-cases (get k s.switches)) [
  | inl e ↦ nothing (n e)
  | inr (sw, e) ↦ elim (Bool-cases (test sw)) [
    | inl t ↦ nothing (u sw e t)
    | inr t ↦ wrote k sw (f sw) e (same sw).0 (inl (same sw).1) (w sw e t)
  ]
]

-- Every call is one of the six forms.
pub apply-Effect :
    (q : Kept) (c : Call) (s : AgentState) → IsProper c → Keeps q c → Effect q s (apply c s)
unfolding apply pin_vendor set_switch_profile set_os_version set_snmp_health set_alert_mute
    alerts_suppressed set_unmanaged remove_switch set_backup_result set_device_inventory
    set_arp_last_run
apply-Effect q (register k host mode) s p h = register-Effect q k host mode s p
apply-Effect q (update k cs) s p h = update-Effect q k cs s h
apply-Effect q (edit_mode k mode) s p h = write_mode-Effect q k mode s p h
apply-Effect q (pin k v) s p h =
    wrote_unless q k s _ (λ sw. sw.vendor == v) (λ sw. record sw { vendor = v })
      (λ sw. ((refl, refl), refl)) (λ sw e t. ground arith) (λ sw e t. ground arith)
      (λ e. ground arith)
apply-Effect q (use_profile k v) s p h =
    always_wrote q k s _ (λ sw. record sw { snmp_profile = v }) (λ sw. ((refl, refl), refl))
      (λ sw e. ground arith) (λ e. ground arith)
apply-Effect q (record_version k v) s p h =
    wrote_unless q k s _ (λ sw. v == sw.os_version) (λ sw. record sw { os_version = v })
      (λ sw. ((refl, refl), refl)) (λ sw e t. ground arith) (λ sw e t. ground arith)
      (λ e. ground arith)
apply-Effect q (record_health k v) s p h =
    wrote_unless q k s _ (λ sw. same_flag v sw.snmp_ok) (λ sw. record sw { snmp_ok = v })
      (λ sw. ((refl, refl), refl)) (λ sw e t. ground arith) (λ sw e t. ground arith)
      (λ e. ground arith)
apply-Effect q (mute k m until) s p h =
    always_wrote q k s _
      (λ sw. record sw { alerts_muted = m; mute_until = if m then until else none })
      (λ sw. ((refl, refl), refl)) (λ sw e. ground arith) (λ e. ground arith)
apply-Effect q (check_mute now k) s p h =
    wrote_unless q k s _ (λ sw. not (sw.alerts_muted && has_expired now sw.mute_until))
      (λ sw. record sw { alerts_muted = false; mute_until = none }) (λ sw. ((refl, refl), refl))
      (λ sw e t. ground arith) (λ sw e t. ground arith) (λ e. ground arith)
apply-Effect q (manage k u) s p h =
    always_wrote q k s _ (λ sw. record sw { unmanaged = u }) (λ sw. ((refl, refl), refl))
      (λ sw e. ground arith) (λ e. ground arith)
apply-Effect q (forget k) s p h = elim (Bool-cases (contains k s.switches)) [
  | inl t ↦ dropped k (ground arith)
  | inr f ↦ nothing (ground arith)
]
apply-Effect q (backup_done now ok failed devices) s p h = noted _ _ _ _ refl
apply-Effect q (scan_done now devices) s p h = noted _ _ _ _ refl
apply-Effect q (arp_done now location) s p h = noted _ _ _ _ refl
