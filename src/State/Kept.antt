-- ===== src/State/Kept.antt =====
-- The fields of a switch that calls of state.py write to memory alone.
use aruba_network_agent.Prelude.{
  String, ◌≡◌, refl, Bool, false, none, List, [], ◌∷◌, All, ◌∙◌, string_Eq, if◌then◌else◌,
}
use aruba_network_agent.State.Data.{SwitchState, new_switch}
use aruba_network_agent.State.Ops.{
  set_attr, set_attrs, Change, new_hostname, new_vendor, new_profile,
}
use aruba_network_agent.State.Calls.{Call, update, edit_mode}

-- The fields that discovery, the polls and a page may write to memory alone, each with whether none of
-- some calls does so.
pub record Kept : Type 0 where
  pub hostname : Bool
  pub vendor : Bool
  pub profile : Bool
  pub mode : Bool

abbrev pub text_if : Bool → String → String
text_if b text = if b then text else ""

-- A switch with the fields blanked that only a save of something else carries to disk.
abbrev pub core : Kept → SwitchState → SwitchState
core q sw = record sw {
  hostname = text_if q.hostname sw.hostname;
  vendor = text_if q.vendor sw.vendor;
  snmp_profile = text_if q.profile sw.snmp_profile;
  monitor_mode = text_if q.mode sw.monitor_mode;
  failures = 0;
  last_seen = none;
  last_event = (new_switch "" "" "").last_event;
}

-- The call does not write a kept field to memory alone.
abbrev pub KeepsChange : Kept → Change → Type 0
KeepsChange q (new_hostname x) = q.hostname ≡ false
KeepsChange q (new_vendor x) = q.vendor ≡ false
KeepsChange q (new_profile x) = q.profile ≡ false
KeepsChange q _ = Unit

abbrev pub Keeps : Kept → Call → Type 0
Keeps q (update k cs) = All (KeepsChange q) cs
Keeps q (edit_mode k mode) = q.mode ≡ false
Keeps q _ = Unit

abbrev pub none_kept : Kept
none_kept = record { hostname = false; vendor = false; profile = false; mode = false }

pub Keeps-none_kept : (c : Call) → Keeps none_kept c
Keeps-none_kept (update k cs) = go cs
  where
    go : (cs : List Change) → All (KeepsChange none_kept) cs
    go [] = tt
    go (new_hostname x ∷ cs) = (refl, go cs)
    go (new_vendor x ∷ cs) = (refl, go cs)
    go (new_profile x ∷ cs) = (refl, go cs)
    go (c ∷ cs) = (tt, go cs)
Keeps-none_kept (edit_mode k mode) = refl
Keeps-none_kept _ = tt

-- The identity of a switch: name and host.
abbrev pub SameIdentity : SwitchState → SwitchState → Type 0
SameIdentity a b = (b.name ≡ a.name) × (b.host ≡ a.host)

set_attr-core :
    (q : Kept) (sw : SwitchState) (c : Change)
    → KeepsChange q c
    → let sw' = set_attr sw c in
      (record (core q sw') { is_down = sw.is_down } ≡ core q sw)
      × (sw'.monitor_mode ≡ sw.monitor_mode)
      × SameIdentity sw sw'
unfolding set_attr
set_attr-core q sw (new_hostname x) h = (rw h refl, refl, (refl, refl))
set_attr-core q sw (new_vendor x) h = (rw h refl, refl, (refl, refl))
set_attr-core q sw (new_profile x) h = (rw h refl, refl, (refl, refl))
set_attr-core q sw c h = (refl, refl, (refl, refl))

-- Whatever the keyword arguments, only `is_down` changes among the fields of the core.
pub set_attrs-core :
    (q : Kept) (cs : List Change) (sw : SwitchState)
    → All (KeepsChange q) cs
    → let sw' = set_attrs sw cs in
      (record (core q sw') { is_down = sw.is_down } ≡ core q sw)
      × (sw'.monitor_mode ≡ sw.monitor_mode)
      × SameIdentity sw sw'
unfolding set_attrs
set_attrs-core q [] sw h = (refl, refl, (refl, refl))
set_attrs-core q (c ∷ cs) sw h =
    let ih = set_attrs-core q cs (set_attr sw c) h.1 in
    let one = set_attr-core q sw c h.0 in
    ((let a = ih.0 in let b = one.0 in cc), ih.1 ∙ one.1, (ih.2.0 ∙ one.2.0, ih.2.1 ∙ one.2.1))
