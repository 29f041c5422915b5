-- ===== src/State/Data.antt =====
-- The dataclasses of state.py, and the JSON payload that `_save` writes and `_load` reads.
use aruba_network_agent.Prelude.{
  ℕ, String, Bool, false, true, Option, none, List, [], ◌==◌, string_Eq,
}
use aruba_network_agent.Prelude.Dict.{Dict}

-- The texts that `last_event` takes. A time stands for its rendering; `absent` is `None`, which a
-- snapshot with a null there brings in.
pub data EventText : Type 0 where
  initializing from_snapshot absent : EventText
  reachable reachable_by_ssh : ℕ → EventText
  poll_failed : ℕ → ℕ → EventText
  other_text : String → EventText

-- Times are microseconds since a fixed epoch.
pub record SwitchState : Type 0 where
  pub name : String
  pub host : String
  pub hostname : String
  pub vendor : String
  pub os_version : String
  pub snmp_profile : String
  pub monitor_mode : String
  pub is_down : Bool
  pub failures : ℕ
  pub last_seen : Option ℕ
  pub last_event : EventText
  pub snmp_ok : Bool
  pub alerts_muted : Bool
  pub mute_until : Option ℕ
  pub unmanaged : Bool

-- `SwitchState(name=name, host=host, monitor_mode=mode)`
abbrev pub new_switch : String → String → String → SwitchState
new_switch name host mode = record {
  name = name;
  host = host;
  hostname = "";
  vendor = "";
  os_version = "";
  snmp_profile = "";
  monitor_mode = mode;
  is_down = false;
  failures = 0;
  last_seen = none;
  last_event = initializing;
  snmp_ok = true;
  alerts_muted = false;
  mute_until = none;
  unmanaged = false;
}

-- A small dictionary of texts, such as a device of the inventory.
abbrev pub Row : Type 0
Row = Dict String String

pub record BackupRun : Type 0 where
  pub timestamp : Option ℕ
  pub success_count : ℕ
  pub failed_count : ℕ
  pub failed_devices : List Row

abbrev pub no_backup : BackupRun
no_backup = record { timestamp = none; success_count = 0; failed_count = 0; failed_devices = [] }

-- A member of a JSON object: not there, null, or a value.
pub data Field (A : Type 0) : Type 0 where
  missing null : Field A
  value : A → Field A

-- A JSON text read as a time: empty, refused by `datetime.fromisoformat`, or a time.
pub data Stamp : Type 0 where
  blank malformed : Stamp
  moment : ℕ → Stamp

-- What `int(...)` is given: a number, or what makes it raise.
pub data Count : Type 0 where
  number : ℕ → Count
  not_a_number : Count

pub record Entry : Type 0 where
  pub name : Field String
  pub host : Field String
  pub hostname : Field String
  pub vendor : Field String
  pub os_version : Field String
  pub snmp_profile : Field String
  pub monitor_mode : Field String
  pub is_down : Field Bool
  pub snmp_ok : Field Bool
  pub alerts_muted : Field Bool
  pub mute_until : Field Stamp
  pub unmanaged : Field Bool
  pub failures : Field Count
  pub last_seen : Field Stamp
  pub last_event : Field EventText

pub record BackupEntry : Type 0 where
  pub timestamp : Field Stamp
  pub success_count : Field Count
  pub failed_count : Field Count
  pub failed_devices : Field (List Row)

pub record Payload : Type 0 where
  pub switches : Field (List Entry)
  pub backup : Field BackupEntry
  pub device_inventory : Field (List Row)
  pub scanner_last_run : Field Stamp
  pub arp_last_run : Field (Dict String (Field Stamp))

-- `JsonStore`: a path or none, whether the file system takes reads and writes, and the file.
pub record JsonStore : Type 0 where
  pub path_set : Bool
  pub readable : Bool
  pub writable : Bool
  pub contents : Option Payload

pub record AgentState : Type 0 where
  pub switches : Dict String SwitchState
  pub backup : BackupRun
  pub device_inventory : List Row
  pub scanner_last_run : Option ℕ
  pub arp_last_run : Dict String (Option ℕ)
  pub store : JsonStore

-- `not s` for a text
abbrev pub is_blank : String → Bool
is_blank s = s == ""
