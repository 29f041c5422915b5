-- ===== src/State/Restart.antt =====
-- `_load` after `_save` of state.py, through json_store.py.
use mathlib.Core.List.{append-nil, append_assoc}
use aruba_network_agent.Prelude.{
  ℕ, String, ◌≡◌, refl, sym, ap, ◌∙◌, false, true, Option, none, some, List, [], ◌∷◌, ◌++◌, map,
  arith, string_Eq, ==_iff, Bool-cases, inl, inr,
}
use aruba_network_agent.Prelude.Dict.{Dict, put, values, IsUnique}
use aruba_network_agent.Prelude.Dict.Entries.{AllEntries, put_fresh, get-none_of_IsUnique}
use aruba_network_agent.State.Data.{SwitchState, value, Entry, AgentState, JsonStore, is_blank}
use aruba_network_agent.State.Snapshot.{
  init, iso, parse_iso, text_or, restore, restore_switch, restore_switches, restore_arp,
  restore_backup, save_arp, save, entry_of, payload_of, store_load,
}
use aruba_network_agent.State.WellFormed.{IsGood, IsWellFormed}

-- A file that can be read and written.
pub record IsHealthy (store : JsonStore) : Type 0 where
  pub has_path : store.path_set ≡ true
  pub reads : store.readable ≡ true
  pub writes : store.writable ≡ true

-- A new process over the same file.
abbrev pub restart : AgentState → AgentState
restart s = init s.store

parse_iso-iso : (t : Option ℕ) → parse_iso (iso t) ≡ t
parse_iso-iso none = refl
parse_iso-iso (some t) = refl

text_or-value : (s : String) → text_or "" (value s) ≡ s
text_or-value s = elim (Bool-cases (is_blank s)) [
  | inl e ↦ rw e (sym ((==_iff s "").0 e))
  | inr e ↦ rw e refl
]

text_or-value_set : (dflt s : String) → is_blank s ≡ false → text_or dflt (value s) ≡ s
text_or-value_set dflt s e = rw e refl

restore_arp-save_arp : (d : Dict String (Option ℕ)) → restore_arp (save_arp d) ≡ d
unfolding restore_arp save_arp
restore_arp-save_arp [] = refl
restore_arp-save_arp (e ∷ d) = cc (restore_arp-save_arp d, parse_iso-iso e.1)

restore_switch-entry_of :
    (k : String) (sw : SwitchState) → IsGood k sw → restore_switch k sw.host (entry_of sw) ≡ some sw
unfolding restore_switch entry_of
restore_switch-entry_of k sw g = cc (
  text_or-value sw.hostname,
  text_or-value sw.vendor,
  text_or-value sw.os_version,
  text_or-value sw.snmp_profile,
  text_or-value_set "auto" sw.monitor_mode g.3,
  parse_iso-iso sw.last_seen,
  parse_iso-iso sw.mute_until,
)

restore_switches-cons :
    (k : String) (sw : SwitchState) (es : List Entry) (d : Dict String SwitchState)
    → IsGood k sw
    → restore_switches d (entry_of sw ∷ es) ≡ restore_switches (put k sw d) es
restore_switches-cons k sw es d g =
    let name = text_or-value sw.name in
    let host = text_or-value sw.host in
    let one = restore_switch-entry_of k sw g in unfold restore_switches entry_of in ground arith

restore_switches-map :
    (r d : Dict String SwitchState)
    → IsUnique (d ++ r)
    → AllEntries IsGood r
    → restore_switches d (map entry_of (values r)) ≡ some (d ++ r)
restore_switches-map [] d u g = unfold restore_switches in ap some (sym (append-nil d))
restore_switches-map ((k, sw) ∷ r) d u g =
    restore_switches-cons k sw (map entry_of (values r)) d g.0
    ∙ ap (λ x. restore_switches x (map entry_of (values r)))
        (put_fresh k sw d (get-none_of_IsUnique k sw d r u))
    ∙ restore_switches-map r (d ++ (k, sw) ∷ []) (rw append_assoc u) g.1
    ∙ ap some (append_assoc d ((k, sw) ∷ []) r)

restore-payload_of :
    (store : JsonStore) (s : AgentState)
    → IsWellFormed s
    → restore store (payload_of s) ≡ some (record s { store = store })
restore-payload_of store s h =
    let sws = restore_switches-map s.switches [] h.unique h.good in
    let arp = restore_arp-save_arp s.arp_last_run in
    let at = parse_iso-iso s.backup.timestamp in
    let scanned = parse_iso-iso s.scanner_last_run in
    unfold restore payload_of restore_backup in ground arith

-- With a file that can be read and written, a restart right after a save is the saved state,
-- every field of it.
pub restart-save : (s : AgentState) → IsWellFormed s → IsHealthy s.store → restart (save s) ≡ save s
restart-save s h ok =
    let back = restore-payload_of (save s).store s h in unfold init save store_load in ground arith
