-- ===== src/State/Durable.antt =====
-- What a restart at any moment brings back, and what it loses.
use aruba_network_agent.Prelude.{
  String, ◌≡◌, refl, sym, ap, subst, ◌∙◌, List, [], ◌∷◌, map, arith, string_Eq,
}
use aruba_network_agent.Prelude.Dict.{values}
use aruba_network_agent.Prelude.Dict.Entries.{map-values-put}
use aruba_network_agent.State.Data.{AgentState, JsonStore}
use aruba_network_agent.State.Snapshot.{init, restore, save}
use aruba_network_agent.State.Ops.{update_switch, new_vendor, new_profile}
use aruba_network_agent.State.Calls.{Call, apply, run}
use aruba_network_agent.State.Kept.{Kept, Keeps, core}
use aruba_network_agent.State.Effect.{
  Effect, nothing, added, wrote, ticked, dropped, noted, apply-Effect,
}
use aruba_network_agent.State.WellFormed.{
  IsWellFormed, AllProper, Effect-IsWellFormed, init-IsWellFormed,
}
use aruba_network_agent.State.Restart.{IsHealthy, restart, restart-save}

-- Two states that agree on all but the blanked fields of `core`.
pub record SameCore (q : Kept) (a b : AgentState) : Type 0 where
  pub switches : map (core q) (values a.switches) ≡ map (core q) (values b.switches)
  pub backup : a.backup ≡ b.backup
  pub device_inventory : a.device_inventory ≡ b.device_inventory
  pub scanner_last_run : a.scanner_last_run ≡ b.scanner_last_run
  pub arp_last_run : a.arp_last_run ≡ b.arp_last_run

SameCore-refl : (q : Kept) (s : AgentState) → SameCore q s s
SameCore-refl q s = record {
  switches = refl;
  backup = refl;
  device_inventory = refl;
  scanner_last_run = refl;
  arp_last_run = refl;
}

pub record IsRecoverable (q : Kept) (s : AgentState) : Type 0 where
  pub well_formed : IsWellFormed s
  pub healthy : IsHealthy s.store
  pub same : SameCore q (restart s) s

save-IsRecoverable :
    (q : Kept) (s : AgentState)
    → IsWellFormed (save s)
    → IsHealthy s.store
    → IsRecoverable q (save s)
save-IsRecoverable q s h ok = record {
  well_formed = h;
  healthy = unfold save in ground arith;
  same =
      rw (restart-save s (unfold save in record { unique = h.unique; good = h.good }) ok)
        (SameCore-refl q (save s));
}

Effect-IsRecoverable :
    {q : Kept} {s s' : AgentState} → Effect q s s' → IsRecoverable q s → IsRecoverable q s'
Effect-IsRecoverable {q} {s} {s'} eff r = go eff (Effect-IsWellFormed eff r.well_formed)
  where
    go : Effect q s s' → IsWellFormed s' → IsRecoverable q s'
    go (nothing e) w = rw e r
    go (added k host mode fresh p e) w = rw e (save-IsRecoverable q _ (rw e at w) r.healthy)
    go (wrote k sw sw' found same m e) w = rw e (save-IsRecoverable q _ (rw e at w) r.healthy)
    go (dropped k e) w = rw e (save-IsRecoverable q _ (rw e at w) r.healthy)
    go (noted b devices scanned arp e) w = rw e (save-IsRecoverable q _ (rw e at w) r.healthy)
    go (ticked k sw sw' found m same e) w = rw e (record {
      well_formed = rw e at w;
      healthy = r.healthy;
      same = record {
        switches = r.same.switches ∙ sym (map-values-put (core q) k sw sw' s.switches found same);
        backup = r.same.backup;
        device_inventory = r.same.device_inventory;
        scanner_last_run = r.same.scanner_last_run;
        arp_last_run = r.same.arp_last_run;
      };
    })

abbrev pub AllKeep : Kept → List Call → Type 0
AllKeep q [] = Unit
AllKeep q (c ∷ cs) = Keeps q c × AllKeep q cs

run-IsRecoverable :
    (q : Kept) (cs : List Call) (s : AgentState)
    → AllProper cs
    → AllKeep q cs
    → IsRecoverable q s
    → IsRecoverable q (run cs s)
unfolding run
run-IsRecoverable q [] s p h r = r
run-IsRecoverable q (c ∷ cs) s p h r =
    run-IsRecoverable q cs (apply c s) p.1 h.1 (Effect-IsRecoverable (apply-Effect q c s p.0 h.0) r)

store-init : (store : JsonStore) → (init store).store ≡ store
unfolding init restore
store-init store = ground arith

init-IsRecoverable : (q : Kept) (store : JsonStore) → IsHealthy store → IsRecoverable q (init store)
init-IsRecoverable q store ok = record {
  well_formed = init-IsWellFormed store;
  healthy = rw (store-init store) ok;
  same =
      subst (λ st. SameCore q (init st) (init store)) (sym (store-init store))
        (SameCore-refl q (init store));
}

-- Over a file that can be read and written, after any calls whose registrations have a name, a host and a
-- mode and whose edits of a mode give one, a restart brings back every switch with its host, OS version, UP/DOWN state, SNMP health, mute and unmanaged flags, the backup result, the
-- inventory and the scan and ARP times; and of its vendor, profile, hostname and mode each that no call
-- writes to memory alone, as `update_switch` does with the first three and a page with the mode.
pub run-recovers :
    (q : Kept) (store : JsonStore) (cs : List Call)
    → IsHealthy store
    → AllProper cs
    → AllKeep q cs
    → SameCore q (restart (run cs (init store))) (run cs (init store))
run-recovers q store cs ok p h =
    (run-IsRecoverable q cs (init store) p h (init-IsRecoverable q store ok)).same

-- A vendor and a profile that discovery finds are written to memory alone: a restart right after
-- brings back the state as it was saved before.
pub discovery_is_lost :
    (s : AgentState) (k vendor profile : String)
    → IsWellFormed s
    → IsHealthy s.store
    → restart (update_switch k (new_vendor vendor ∷ new_profile profile ∷ []) (save s)) ≡ save s
discovery_is_lost s k vendor profile h ok = ap init (keeps_store (save s)) ∙ restart-save s h ok
  where
    keeps_store :
        (t : AgentState)
        → (update_switch k (new_vendor vendor ∷ new_profile profile ∷ []) t).store ≡ t.store
    keeps_store t = unfold update_switch in ground arith
