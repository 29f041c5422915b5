-- ===== src/ManualHosts/Modes.antt =====
-- The modes of the hosts of manual_hosts.py.
use aruba_network_agent.Prelude.{
  ℕ, String, All, ◌≡◌, refl, sym, subst, Bool, true, false, ◌||◌, ◌⊎◌, Option, none, some, List, [],
  ◌∷◌, ◌==◌, string_Eq, arith, Bool-cases, Option-cases, inl, inr, if◌then◌else◌,
}
use aruba_network_agent.Prelude.Dict.{Dict, get, put, remove, contains, values}
use aruba_network_agent.Prelude.Dict.Entries.{
  AllEntries, get-AllEntries, put-AllEntries, remove-AllEntries,
}
use aruba_network_agent.ManualHosts.{
  valid_modes, default_mode, is_one_of, ManualHost, HostsStore, coerced, load_hosts, open_hosts,
  save_hosts, add_host, or_old, or_old_host, is_refused, update_host, remove_host, first_with_host,
  list_hosts, get_mode, HostCall, added, updated, removed, reopened, serve_host, serve_hosts,
}

-- An entry stands under its name, has a host, and its mode is one of the four.
record IsFine (name : String) (h : ManualHost) : Type 0 where
  own : h.name ≡ name
  named : (h.name == "") ≡ false
  hosted : (h.host == "") ≡ false
  valid : is_one_of h.monitor_mode valid_modes ≡ true

abbrev AreFine : Dict String ManualHost → Type 0
AreFine = AllEntries IsFine

coerced-valid : (mode : String) → is_one_of (coerced mode) valid_modes ≡ true
unfolding coerced
coerced-valid mode = go (is_one_of mode valid_modes) refl
  where
    go :
        (b : Bool)
        → is_one_of mode valid_modes ≡ b
        → is_one_of (if b then mode else default_mode) valid_modes ≡ true
    go true e = e
    go false e = refl

load_hosts-AreFine :
    (hs : List ManualHost) (d : Dict String ManualHost) → AreFine d → AreFine (load_hosts d hs)
unfolding load_hosts
load_hosts-AreFine [] d h = h
load_hosts-AreFine (x ∷ hs) d h =
    let x' = record x { monitor_mode = coerced x.monitor_mode } in
    let next = if x.name == "" || x.host == "" then d else put x.name x' d in
    let fine : AreFine next = elim (Bool-cases (x.name == "" || x.host == "")) [
      | inl e ↦ rw e h
      | inr e ↦ rw e (
          put-AllEntries IsFine x.name x' d
            (record {
              own = refl;
              named = ground arith;
              hosted = ground arith;
              valid = coerced-valid x.monitor_mode;
            })
            h)
    ] in
    load_hosts-AreFine hs next fine

add_host-AreFine :
    (now : ℕ) (name host mode profile description by : String) (s : HostsStore)
    → AreFine s.hosts
    → AreFine (add_host now name host mode profile description by s).0.hosts
unfolding add_host save_hosts
add_host-AreFine now name host mode profile description by s h =
    let new : ManualHost = record {
      name = name;
      host = host;
      monitor_mode = coerced mode;
      snmp_profile = profile;
      description = description;
      added_by = if by == "" then "?" else by;
      created = now;
    } in
    elim (Bool-cases (name == "" || host == "")) [
      | inl e ↦ rw e h
      | inr e ↦ elim (Bool-cases (contains name s.hosts)) [
        | inl f ↦ rw (e, f) h
        | inr f ↦
            let fine : IsFine name new = record {
              own = refl;
              named = ground arith;
              hosted = ground arith;
              valid = coerced-valid mode;
            } in
            rw (e, f) (put-AllEntries IsFine name new s.hosts fine h)
      ]
    ]

-- The entry that an update writes.
abbrev updated_entry :
    Option String → Option String → Option String → Option String → ManualHost → ManualHost
updated_entry mode profile description host x = record x {
  monitor_mode = or_old mode x.monitor_mode;
  snmp_profile = or_old profile x.snmp_profile;
  description = or_old description x.description;
  host = or_old_host host x.host;
}

updated_entry-IsFine :
    (name : String) (mode profile description host : Option String) (x : ManualHost)
    → is_refused mode ≡ false
    → IsFine name x
    → IsFine name (updated_entry mode profile description host x)
updated_entry-IsFine name mode profile description host x allowed old = record {
  own = old.own;
  named = old.named;
  hosted = kept_host host x.host old.hosted;
  valid = kept_mode mode x.monitor_mode allowed old.valid;
}
  where
    kept_host :
        (new : Option String) (old : String)
        → (old == "") ≡ false
        → (or_old_host new old == "") ≡ false
    kept_host none old k = k
    kept_host (some new) old k = elim (Bool-cases (new == "")) [ inl e ↦ rw e k | inr e ↦ rw e e ]

    kept_mode :
        (new : Option String) (old : String)
        → is_refused new ≡ false
        → is_one_of old valid_modes ≡ true
        → is_one_of (or_old new old) valid_modes ≡ true
    kept_mode none old k v = v
    kept_mode (some new) old k v = ground arith

update_host-hosts :
    (name : String) (mode profile description host : Option String) (s : HostsStore)
    → let s' = (update_host name mode profile description host s).0 in
      (s'.hosts ≡ s.hosts)
      ⊎ ((x : ManualHost) × (get name s.hosts ≡ some x)
          × (is_refused mode ≡ false)
          × (s'.hosts ≡ put name (updated_entry mode profile description host x) s.hosts))
unfolding update_host save_hosts
update_host-hosts name mode profile description host s = elim (Option-cases (get name s.hosts)) [
  | inl e ↦ inl (ground arith)
  | inr (x, e) ↦ elim (Bool-cases (is_refused mode)) [
    | inl f ↦ inl (ground arith)
    | inr f ↦ inr (x, e, f, ground arith)
  ]
]

update_host-AreFine :
    (name : String) (mode profile description host : Option String) (s : HostsStore)
    → AreFine s.hosts
    → AreFine (update_host name mode profile description host s).0.hosts
update_host-AreFine name mode profile description host s h =
    elim (update_host-hosts name mode profile description host s) [
      | inl same ↦ subst AreFine (sym same) h
      | inr (x, e, allowed, there) ↦ subst AreFine (sym there) (
          put-AllEntries IsFine name (updated_entry mode profile description host x) s.hosts
            (updated_entry-IsFine name mode profile description host x allowed
              (get-AllEntries IsFine name x s.hosts h e))
            h)
    ]

remove_host-hosts :
    (name : String) (s : HostsStore)
    → let s' = (remove_host name s).0 in (s'.hosts ≡ s.hosts) ⊎ (s'.hosts ≡ remove name s.hosts)
unfolding remove_host save_hosts
remove_host-hosts name s = ground arith

serve_host-AreFine :
    (c : HostCall) (s : HostsStore) → AreFine s.hosts → AreFine (serve_host c s).hosts
unfolding serve_host
serve_host-AreFine (added now name host mode profile description by) s h =
    add_host-AreFine now name host mode profile description by s h
serve_host-AreFine (updated name mode profile description host) s h =
    update_host-AreFine name mode profile description host s h
serve_host-AreFine (removed name) s h = elim (remove_host-hosts name s) [
  | inl same ↦ subst AreFine (sym same) h
  | inr there ↦ subst AreFine (sym there) (remove-AllEntries IsFine name s.hosts h)
]
serve_host-AreFine reopened s h = unfold open_hosts in load_hosts-AreFine s.file [] tt

serve_hosts-AreFine :
    (cs : List HostCall) (s : HostsStore) → AreFine s.hosts → AreFine (serve_hosts cs s).hosts
unfolding serve_hosts
serve_hosts-AreFine [] s h = h
serve_hosts-AreFine (c ∷ cs) s h =
    serve_hosts-AreFine cs (serve_host c s) (serve_host-AreFine c s h)

-- A mode, if a host has one, is one of the four.
abbrev pub IsMode : Option String → Type 0
IsMode none = Unit
IsMode (some mode) = is_one_of mode valid_modes ≡ true

first_with_host-IsMode :
    (host : String) (d : Dict String ManualHost)
    → AreFine d
    → IsMode (elim (first_with_host host d) as (λ _. Option String) [
      | none ↦ none
      | some h ↦ some h.monitor_mode
    ])
unfolding first_with_host
first_with_host-IsMode host [] h = tt
first_with_host-IsMode host (e ∷ d) h =
    let rest = first_with_host-IsMode host d h.1 in
    elim (Bool-cases (e.1.host == host)) [ inl x ↦ rw x h.0.valid | inr x ↦ rw x rest ]

values-All-valid :
    (d : Dict String ManualHost)
    → AreFine d
    → All (λ h. is_one_of h.monitor_mode valid_modes ≡ true) (values d)
values-All-valid [] h = tt
values-All-valid (e ∷ d) h = (h.0.valid, values-All-valid d h.1)

-- Whatever the file holds, and whatever is added, updated and removed, with restarts in between: every
-- host that the store lists has one of the four modes, and so does a host that is looked up, if it is
-- there.
pub modes_are_valid :
    (file : List ManualHost) (cs : List HostCall) (host : String)
    → let s = serve_hosts cs (open_hosts file) in
      All (λ h. is_one_of h.monitor_mode valid_modes ≡ true) (list_hosts s)
      × IsMode (get_mode host s)
unfolding get_mode open_hosts list_hosts
modes_are_valid file cs host =
    let s = serve_hosts cs (open_hosts file) in
    let fine = serve_hosts-AreFine cs (open_hosts file) (load_hosts-AreFine file [] tt) in
    (values-All-valid s.hosts fine, first_with_host-IsMode host s.hosts fine)
