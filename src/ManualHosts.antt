-- ===== src/ManualHosts.antt =====
-- The hosts that operators add, aruba_agent/manual_hosts.py. A text is as `strip` leaves it, where the
-- method strips it; a save succeeds. The proofs are below.
pub mod Modes
pub mod Tests
use aruba_network_agent.Prelude.{
  ℕ, String, Bool, true, false, not, ◌&&◌, ◌||◌, Option, none, some, List, [], ◌∷◌, ◌==◌, string_Eq,
  if◌then◌else◌,
}
use aruba_network_agent.Prelude.Dict.{Dict, get, put, remove, contains, values}

-- `VALID_MODES` and `DEFAULT_MODE`
abbrev pub valid_modes : List String
valid_modes = "icmp" ∷ "snmp_ro" ∷ "snmp_rw" ∷ "auto" ∷ []

abbrev pub default_mode : String
default_mode = "auto"

abbrev pub is_one_of : String → List String → Bool
is_one_of x [] = false
is_one_of x (y ∷ ys) = y == x || is_one_of x ys

-- An entry; a member that the file lacks is the empty text.
pub record ManualHost : Type 0 where
  pub name : String
  pub host : String
  pub monitor_mode : String
  pub snmp_profile : String
  pub description : String
  pub added_by : String
  pub created : ℕ

-- The hosts in memory and those in the file.
pub record HostsStore : Type 0 where
  pub hosts : Dict String ManualHost
  pub file : List ManualHost

-- A mode that is not valid is the default one.
unfoldable pub coerced : String → String
coerced mode = if is_one_of mode valid_modes then mode else default_mode

-- The loop of `_load`
unfoldable pub load_hosts : Dict String ManualHost → List ManualHost → Dict String ManualHost
unfolding coerced
load_hosts d [] = d
load_hosts d (h ∷ hs) =
    load_hosts
      (if h.name == "" || h.host == ""
        then d
        else put h.name (record h { monitor_mode = coerced h.monitor_mode }) d)
      hs

-- `__init__` over a file, which is empty where there is none or it cannot be read
unfoldable pub open_hosts : List ManualHost → HostsStore
unfolding load_hosts
open_hosts file = record { hosts = load_hosts [] file; file = file }

-- `_save`
unfoldable pub save_hosts : HostsStore → HostsStore
save_hosts s = record s { file = values s.hosts }

unfoldable pub add_host :
    ℕ → String → String → String → String → String → String → HostsStore → HostsStore × Bool
unfolding coerced save_hosts
add_host now name host monitor_mode snmp_profile description added_by s =
    if name == "" || host == "" then (s, false) else if contains name s.hosts then (s, false) else (
      save_hosts (record s {
        hosts =
            put name
              (record {
                name = name;
                host = host;
                monitor_mode = coerced monitor_mode;
                snmp_profile = snmp_profile;
                description = description;
                added_by = if added_by == "" then "?" else added_by;
                created = now;
              })
              s.hosts;
      }),
      true,
    )

abbrev pub or_old : Option String → String → String
or_old none old = old
or_old (some new) old = new

abbrev pub or_old_host : Option String → String → String
or_old_host none old = old
or_old_host (some new) old = if new == "" then old else new

abbrev pub is_refused : Option String → Bool
is_refused none = false
is_refused (some mode) = not (is_one_of mode valid_modes)

unfoldable pub update_host :
    String
    → Option String
    → Option String
    → Option String
    → Option String
    → HostsStore
    → HostsStore × Bool
unfolding save_hosts
update_host name monitor_mode snmp_profile description host s = elim (get name s.hosts) [
  | none ↦ (s, false)
  | some h ↦ if is_refused monitor_mode then (s, false) else (
    save_hosts (record s {
      hosts =
          put name
            (record h {
              monitor_mode = or_old monitor_mode h.monitor_mode;
              snmp_profile = or_old snmp_profile h.snmp_profile;
              description = or_old description h.description;
              host = or_old_host host h.host;
            })
            s.hosts;
    }),
    true,
  )
]

unfoldable pub remove_host : String → HostsStore → HostsStore × Bool
unfolding save_hosts
remove_host name s =
    if not (contains name s.hosts)
    then (s, false)
    else (save_hosts (record s { hosts = remove name s.hosts }), true)

-- `list_hosts`, which `main` reads at the start of the agent, and the pages read
unfoldable pub list_hosts : HostsStore → List ManualHost
list_hosts s = values s.hosts

-- The loops of the lookups: the first entry with the host
unfoldable pub first_with_host : String → Dict String ManualHost → Option ManualHost
first_with_host host [] = none
first_with_host host (e ∷ d) = if e.1.host == host then some e.1 else first_with_host host d

-- No part of the agent calls `get_mode`.
unfoldable pub get_mode : String → HostsStore → Option String
unfolding first_with_host
get_mode host s = elim (first_with_host host s.hosts) [ none ↦ none | some h ↦ some h.monitor_mode ]

unfoldable pub get_snmp_profile : String → HostsStore → String
unfolding first_with_host
get_snmp_profile host s = elim (first_with_host host s.hosts) [
  | none ↦ ""
  | some h ↦ h.snmp_profile
]

-- What the settings page does to the store, and a restart of the agent.
pub data HostCall : Type 0 where
  added : ℕ → String → String → String → String → String → String → HostCall
  updated : String → Option String → Option String → Option String → Option String → HostCall
  removed : String → HostCall
  reopened : HostCall

unfoldable pub serve_host : HostCall → HostsStore → HostsStore
unfolding add_host update_host remove_host open_hosts
serve_host (added now name host mode profile description by) s =
    (add_host now name host mode profile description by s).0
serve_host (updated name mode profile description host) s =
    (update_host name mode profile description host s).0
serve_host (removed name) s = (remove_host name s).0
serve_host reopened s = open_hosts s.file

unfoldable pub serve_hosts : List HostCall → HostsStore → HostsStore
unfolding serve_host
serve_hosts [] s = s
serve_hosts (c ∷ cs) s = serve_hosts cs (serve_host c s)
