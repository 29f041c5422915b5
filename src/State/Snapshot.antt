-- ===== src/State/Snapshot.antt =====
-- `_save` and `_load` of state.py, and `save` and `load` of json_store.py.
use aruba_network_agent.Prelude.{
  ℕ, String, Bool, false, true, ◌||◌, Option, none, some, List, [], ◌∷◌, map, string_Eq,
  if◌then◌else◌,
}
use aruba_network_agent.Prelude.Dict.{Dict, put, values}
use aruba_network_agent.State.Data.{
  EventText, from_snapshot, absent, SwitchState, BackupRun, no_backup, Field, missing, null, value,
  Stamp, blank, malformed, moment, Count, number, not_a_number, Entry, BackupEntry, Payload,
  JsonStore, AgentState, is_blank,
}

-- `_iso`
abbrev pub iso : Option ℕ → Field Stamp
iso none = null
iso (some t) = value (moment t)

-- `_parse_iso`
abbrev pub parse_iso : Field Stamp → Option ℕ
parse_iso (value (moment t)) = some t
parse_iso (value blank) = none
parse_iso (value malformed) = none
parse_iso missing = none
parse_iso null = none

-- `entry.get(key, dflt) or dflt`
abbrev pub text_or : String → Field String → String
text_or dflt missing = dflt
text_or dflt null = dflt
text_or dflt (value s) = if is_blank s then dflt else s

-- `bool(entry.get(key, dflt))`
abbrev pub flag_or : Bool → Field Bool → Bool
flag_or dflt missing = dflt
flag_or dflt null = false
flag_or dflt (value b) = b

-- `int(entry.get(key, 0))`; `none` is an exception
abbrev pub int_or_zero : Field Count → Option ℕ
int_or_zero missing = some 0
int_or_zero null = none
int_or_zero (value (number n)) = some n
int_or_zero (value not_a_number) = none

abbrev pub event_or_restored : Field EventText → EventText
event_or_restored missing = from_snapshot
event_or_restored null = absent
event_or_restored (value e) = e

-- `list(data.get(key, []))`; `none` is an exception
abbrev pub list_or_empty : {A : Type 0} → Field (List A) → Option (List A)
list_or_empty missing = some []
list_or_empty null = none
list_or_empty (value xs) = some xs

-- `data.get(key) or dflt`
abbrev pub value_or : {A : Type 0} → A → Field A → A
value_or dflt missing = dflt
value_or dflt null = dflt
value_or dflt (value a) = a

infixl 5 ◌>>=◌
abbrev pub ◌>>=◌ : {A B : Type 0} → Option A → (A → Option B) → Option B
none >>= f = none
some a >>= f = f a

-- One switch of the snapshot, after the test on its name and host.
unfoldable pub restore_switch : String → String → Entry → Option SwitchState
restore_switch name host e = do
  failures ← int_or_zero e.failures
  some (record {
    name = name;
    host = host;
    hostname = text_or "" e.hostname;
    vendor = text_or "" e.vendor;
    os_version = text_or "" e.os_version;
    snmp_profile = text_or "" e.snmp_profile;
    monitor_mode = text_or "auto" e.monitor_mode;
    is_down = flag_or false e.is_down;
    failures = failures;
    last_seen = parse_iso e.last_seen;
    last_event = event_or_restored e.last_event;
    snmp_ok = flag_or true e.snmp_ok;
    alerts_muted = flag_or false e.alerts_muted;
    mute_until = parse_iso e.mute_until;
    unmanaged = flag_or false e.unmanaged;
  })

-- The loop over `data.get("switches", [])`.
unfoldable pub restore_switches :
    Dict String SwitchState → List Entry → Option (Dict String SwitchState)
unfolding restore_switch
restore_switches d [] = some d
restore_switches d (e ∷ es) =
    let name = text_or "" e.name in
    let host = text_or "" e.host in
    elim (is_blank name || is_blank host) [
      | true ↦ restore_switches d es
      | false ↦ elim (restore_switch name host e) [
        | none ↦ none
        | some sw ↦ restore_switches (put name sw d) es
      ]
    ]

unfoldable pub restore_backup : BackupEntry → Option BackupRun
restore_backup b = do
  success ← int_or_zero b.success_count
  failed ← int_or_zero b.failed_count
  devices ← list_or_empty b.failed_devices
  some (record {
    timestamp = parse_iso b.timestamp;
    success_count = success;
    failed_count = failed;
    failed_devices = devices;
  })

-- The dictionary comprehension over `arp_last_run`.
unfoldable pub restore_arp : Dict String (Field Stamp) → Dict String (Option ℕ)
restore_arp [] = []
restore_arp (e ∷ es) = (e.0, parse_iso e.1) ∷ restore_arp es

-- `b = data.get("backup") or {}`
abbrev empty_backup : BackupEntry
empty_backup = record {
  timestamp = missing;
  success_count = missing;
  failed_count = missing;
  failed_devices = missing;
}

-- The `try` block of `_load`, over a new state; `none` is any exception.
unfoldable pub restore : JsonStore → Payload → Option AgentState
unfolding restore_switches restore_backup restore_arp
restore store data' = do
  entries ← list_or_empty data'.switches
  switches ← restore_switches [] entries
  backup ← restore_backup (value_or empty_backup data'.backup)
  devices ← list_or_empty data'.device_inventory
  some (record {
    switches = switches;
    backup = backup;
    device_inventory = devices;
    scanner_last_run = parse_iso data'.scanner_last_run;
    arp_last_run = restore_arp (value_or [] data'.arp_last_run);
    store = store;
  })

abbrev pub empty_state : JsonStore → AgentState
empty_state store = record {
  switches = [];
  backup = no_backup;
  device_inventory = [];
  scanner_last_run = none;
  arp_last_run = [];
  store = store;
}

-- `JsonStore.load`
unfoldable pub store_load : JsonStore → Option Payload
store_load s = if s.path_set then (if s.readable then s.contents else none) else none

-- `AgentState.__init__` with its `_load`: no snapshot or a bad one gives the empty state.
unfoldable pub init : JsonStore → AgentState
unfolding store_load restore
init store = elim (store_load store) [
  | none ↦ empty_state store
  | some payload ↦ elim (restore store payload) [ none ↦ empty_state store | some s ↦ s ]
]

-- The object that `_save` writes for one switch.
unfoldable pub entry_of : SwitchState → Entry
entry_of s = record {
  name = value s.name;
  host = value s.host;
  hostname = value s.hostname;
  vendor = value s.vendor;
  os_version = value s.os_version;
  snmp_profile = value s.snmp_profile;
  monitor_mode = value s.monitor_mode;
  is_down = value s.is_down;
  snmp_ok = value s.snmp_ok;
  alerts_muted = value s.alerts_muted;
  mute_until = iso s.mute_until;
  unmanaged = value s.unmanaged;
  failures = value (number s.failures);
  last_seen = iso s.last_seen;
  last_event = value s.last_event;
}

unfoldable pub save_arp : Dict String (Option ℕ) → Dict String (Field Stamp)
save_arp [] = []
save_arp (e ∷ es) = (e.0, iso e.1) ∷ save_arp es

-- The payload of `_save`.
unfoldable pub payload_of : AgentState → Payload
unfolding entry_of save_arp
payload_of s = record {
  switches = value (map entry_of (values s.switches));
  backup = value (record {
    timestamp = iso s.backup.timestamp;
    success_count = value (number s.backup.success_count);
    failed_count = value (number s.backup.failed_count);
    failed_devices = value s.backup.failed_devices;
  });
  device_inventory = value s.device_inventory;
  scanner_last_run = iso s.scanner_last_run;
  arp_last_run = value (save_arp s.arp_last_run);
}

-- `JsonStore.save`: the file is replaced as a whole, and an `OSError` leaves the old one. The text of the
-- file is not modelled: it has the members of each object sorted by key, where the payload keeps the
-- order of insertion, which the dictionaries of Python do not compare.
unfoldable pub store_save : Payload → JsonStore → JsonStore
store_save p s =
    if s.path_set then (if s.writable then record s { contents = some p } else s) else s

-- `_save`
unfoldable pub save : AgentState → AgentState
unfolding payload_of store_save
save s = record s { store = store_save (payload_of s) s.store }
