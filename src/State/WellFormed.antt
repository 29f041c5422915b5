-- ===== src/State/WellFormed.antt =====
-- The registry of state.py: its names and switches after `_load` and after any call.
use aruba_network_agent.Prelude.{
  String, ◌≡◌, refl, ap, ◌⊎◌, inl, inr, false, ◌||◌, some, List, [], ◌∷◌, arith, string_Eq,
  Bool-cases, Option-cases,
}
use aruba_network_agent.Prelude.Dict.{Dict, put, IsUnique, put-IsUnique, remove-IsUnique}
use aruba_network_agent.Prelude.Dict.Entries.{
  AllEntries, get-AllEntries, put-AllEntries, remove-AllEntries,
}
use aruba_network_agent.State.Data.{
  SwitchState, Field, missing, null, value, new_switch, Entry, JsonStore, AgentState, is_blank,
  Payload,
}
use aruba_network_agent.State.Snapshot.{
  init, store_load, empty_state, restore, restore_switch, restore_switches, save, text_or,
  list_or_empty,
}
use aruba_network_agent.State.Ops.{store_switch}
use aruba_network_agent.State.Calls.{Call, apply, run}
use aruba_network_agent.State.Kept.{SameIdentity, Kept, none_kept, Keeps-none_kept}
use aruba_network_agent.State.Effect.{
  Effect, nothing, added, wrote, ticked, dropped, noted, IsProper, apply-Effect,
}

abbrev pub IsGood : String → SwitchState → Type 0
IsGood k sw =
    (sw.name ≡ k)
    × (is_blank k ≡ false)
    × (is_blank sw.host ≡ false)
    × (is_blank sw.monitor_mode ≡ false)

pub record IsWellFormed (s : AgentState) : Type 0 where
  pub unique : IsUnique s.switches
  pub good : AllEntries IsGood s.switches

pub save-IsWellFormed : (s : AgentState) → IsWellFormed s → IsWellFormed (save s)
unfolding save
save-IsWellFormed s h = record { unique = h.unique; good = h.good }

pub store_switch-IsWellFormed :
    (k : String) (sw : SwitchState) (s : AgentState)
    → IsGood k sw
    → IsWellFormed s
    → IsWellFormed (store_switch k sw s)
store_switch-IsWellFormed k sw s g h = record {
  unique = put-IsUnique k sw s.switches h.unique;
  good = put-AllEntries IsGood k sw s.switches g h.good;
}

rewritten-IsGood :
    (k : String) (sw sw' : SwitchState)
    → IsGood k sw
    → SameIdentity sw sw'
    → (sw'.monitor_mode ≡ sw.monitor_mode) ⊎ (is_blank sw'.monitor_mode ≡ false)
    → IsGood k sw'
rewritten-IsGood k sw sw' g same (inl m) = ground arith
rewritten-IsGood k sw sw' g same (inr m) = ground arith

pub Effect-IsWellFormed :
    {q : Kept} {s s' : AgentState} → Effect q s s' → IsWellFormed s → IsWellFormed s'
Effect-IsWellFormed (nothing e) h = rw e h
Effect-IsWellFormed {q} {s} (added k host mode fresh p e) h = rw e (
    save-IsWellFormed _
      (store_switch-IsWellFormed k (new_switch k host mode) s (refl, p.0, p.1, p.2) h))
Effect-IsWellFormed {q} {s} (wrote k sw sw' found same m e) h = rw e (
    save-IsWellFormed _ (
      store_switch-IsWellFormed k sw' s
        (rewritten-IsGood k sw sw' (get-AllEntries IsGood k sw s.switches h.good found) same m) h))
Effect-IsWellFormed {q} {s} (ticked k sw sw' found m same e) h = rw e (
    store_switch-IsWellFormed k sw' s
      (rewritten-IsGood k sw sw' (get-AllEntries IsGood k sw s.switches h.good found)
        (ap (λ (x : SwitchState). x.name) same, ap (λ (x : SwitchState). x.host) same) m)
      h)
Effect-IsWellFormed {q} {s} (dropped k e) h = rw e (
    save-IsWellFormed _ (record {
      unique = remove-IsUnique k s.switches h.unique;
      good = remove-AllEntries IsGood k s.switches h.good;
    }))
Effect-IsWellFormed (noted b devices scanned arp e) h =
    rw e (save-IsWellFormed _ (record { unique = h.unique; good = h.good }))

abbrev pub AllProper : List Call → Type 0
AllProper [] = Unit
AllProper (c ∷ cs) = IsProper c × AllProper cs

run-IsWellFormed :
    (cs : List Call) (s : AgentState) → AllProper cs → IsWellFormed s → IsWellFormed (run cs s)
unfolding run
run-IsWellFormed [] s p h = h
run-IsWellFormed (c ∷ cs) s p h =
    run-IsWellFormed cs (apply c s) p.1
      (Effect-IsWellFormed (apply-Effect none_kept c s p.0 (Keeps-none_kept c)) h)

text_or_auto : (f : Field String) → is_blank (text_or "auto" f) ≡ false
text_or_auto missing = refl
text_or_auto null = refl
text_or_auto (value s) = elim (Bool-cases (is_blank s)) [ inl e ↦ rw e refl | inr e ↦ rw e e ]

restore_switch-IsGood :
    (name host : String) (e : Entry) (sw : SwitchState)
    → (is_blank name || is_blank host) ≡ false
    → restore_switch name host e ≡ some sw
    → IsGood name sw
unfolding restore_switch
restore_switch-IsGood name host e sw p h = ground (arith, text_or_auto e.monitor_mode)

restore_switches-IsGood :
    (es : List Entry) (d d' : Dict String SwitchState)
    → IsUnique d
    → AllEntries IsGood d
    → restore_switches d es ≡ some d'
    → IsUnique d' × AllEntries IsGood d'
unfolding restore_switches
restore_switches-IsGood [] d d' u g h = ground arith
restore_switches-IsGood (e ∷ es) d d' u g h =
    let name = text_or "" e.name in
    let host = text_or "" e.host in
    elim (Bool-cases (is_blank name || is_blank host)) [
      | inl b ↦ restore_switches-IsGood es d d' u g (ground arith)
      | inr b ↦ elim (Option-cases (restore_switch name host e)) [
        | inl f ↦ absurd (ground arith)
        | inr (sw, f) ↦
            restore_switches-IsGood es (put name sw d) d' (put-IsUnique name sw d u)
              (put-AllEntries IsGood name sw d (restore_switch-IsGood name host e sw b f) g)
              (ground arith)
      ]
    ]

restore-IsWellFormed :
    (store : JsonStore) (p : Payload) (s : AgentState) → restore store p ≡ some s → IsWellFormed s
unfolding restore
restore-IsWellFormed store p s h = elim (Option-cases (list_or_empty p.switches)) [
  | inl e ↦ absurd (ground arith)
  | inr (es, e) ↦ elim (Option-cases (restore_switches [] es)) [
    | inl f ↦ absurd (ground arith)
    | inr (d, f) ↦
        let (u, g) = restore_switches-IsGood es [] d tt tt f in
        let same : d ≡ s.switches = ground arith in
        record { unique = rw same at u; good = rw same at g }
  ]
]

empty-IsWellFormed : (store : JsonStore) → IsWellFormed (empty_state store)
empty-IsWellFormed store = record { unique = tt; good = tt }

pub init-IsWellFormed : (store : JsonStore) → IsWellFormed (init store)
unfolding init
init-IsWellFormed store = elim (Option-cases (store_load store)) [
  | inl e ↦ ground (arith, empty-IsWellFormed store)
  | inr (p, e) ↦ elim (Option-cases (restore store p)) [
    | inl f ↦ ground (arith, empty-IsWellFormed store)
    | inr (s, f) ↦ ground (arith, restore-IsWellFormed store p s f)
  ]
]

-- From any file, readable or not, and after any calls whose registrations have a name, a host and a mode
-- and whose edits of a mode give one, the registry holds no name twice, every switch stands under its
-- own name, and no name, host or mode is blank.
pub run-init-IsWellFormed :
    (store : JsonStore) (cs : List Call) → AllProper cs → IsWellFormed (run cs (init store))
run-init-IsWellFormed store cs p = run-IsWellFormed cs (init store) p (init-IsWellFormed store)
