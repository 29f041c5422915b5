-- ===== src/Poller/Pool.antt =====
-- `SwitchMonitorManager.sync` with `add`, and the registration that a new monitor makes.
use aruba_network_agent.Prelude.{
  String, ◌≡◌, ◌||◌, ◌==◌, true, some, List, [], ◌∷◌, All, arith, string_Eq, ==_iff, ==_self,
  Bool-cases, Option-cases, inl, inr,
}
use aruba_network_agent.Prelude.Dict.{
  get, put, contains, contains-put, contains-some, IsUnique, put-IsUnique, get-put,
}
use aruba_network_agent.Prelude.Dict.Entries.{AllEntries, answers-AllEntries}
use aruba_network_agent.State.{AgentState, register_switch, save, new_switch}
use aruba_network_agent.Poller.Data.{Monitor}
use aruba_network_agent.Poller.PoolOps.{
  Manager, Options, default_options, or_text, new_monitor, add, sync,
}

-- A monitor stands under its host, and its switch is in the registry.
abbrev pub IsWatched : AgentState → String → Monitor → Type 0
IsWatched s host m = (m.host ≡ host) × (contains m.name s.switches ≡ true)

pub record IsPool (g : Manager) (s : AgentState) : Type 0 where
  pub unique : IsUnique g.monitors
  pub watched : (host : String) (m : Monitor) → get host g.monitors ≡ some m → IsWatched s host m

-- A registration keeps what is registered, and adds its own name.
contains-register_switch :
    (k name host mode : String) (s : AgentState)
    → contains k (register_switch name host mode s).switches ≡ (name == k || contains k s.switches)
unfolding register_switch save
contains-register_switch k name host mode s = elim (Option-cases (get name s.switches)) [
  | inl e ↦ ground (arith, contains-put name k (new_switch name host mode) s.switches)
  | inr (sw, e) ↦ ground (
    arith,
    contains-put name k (record sw { monitor_mode = mode }) s.switches,
    contains-some name sw s.switches e,
    ==_iff name k,
  )
]

added-IsWatched :
    (host name : String) (o : Options) (g : Manager) (s : AgentState) (j : String) (m : Monitor)
    → IsPool g s
    → get j (put host (new_monitor g host name o) g.monitors) ≡ some m
    → IsWatched (register_switch name host (or_text o.monitor_mode "auto") s) j m
added-IsWatched host name o g s j m p h =
    let mode = or_text o.monitor_mode "auto" in
    let put' = get-put host j (new_monitor g host name o) g.monitors in
    let known = contains-register_switch m.name name host mode s in
    elim (Bool-cases (host == j)) [
      | inl e ↦
          let same = (==_iff host j).0 e in
          unfold new_monitor in ground (arith, ==_self name, ==_iff name m.name)
      | inr e ↦ let old = p.watched j m (ground arith) in ground arith
    ]

add-IsPool :
    (host name : String) (o : Options) (g : Manager) (s : AgentState)
    → IsPool g s
    → let r = add host name o g s in IsPool r.0 r.1
add-IsPool host name o g s p = elim (Bool-cases (contains host g.monitors)) [
  | inl e ↦ unfold add in rw e p
  | inr e ↦
      unfold add in
      rw e (record {
        unique = put-IsUnique host (new_monitor g host name o) g.monitors p.unique;
        watched = λ j m h. added-IsWatched host name o g s j m p h;
      })
]

-- `add` watches its host, and leaves every monitor that is there.
add-contains :
    (host name : String) (o : Options) (g : Manager) (s : AgentState)
    → contains host (add host name o g s).0.monitors ≡ true
unfolding add
add-contains host name o g s =
    ground (arith, contains-put host host (new_monitor g host name o) g.monitors, ==_self host)

add-keeps :
    (host name : String) (o : Options) (g : Manager) (s : AgentState) (j : String) (m : Monitor)
    → get j g.monitors ≡ some m
    → get j (add host name o g s).0.monitors ≡ some m
unfolding add
add-keeps host name o g s j m h = ground (
  arith,
  get-put host j (new_monitor g host name o) g.monitors,
  contains-some j m g.monitors h,
  ==_iff host j,
)

sync-IsPool :
    (ips : List String) (g : Manager) (s : AgentState)
    → IsPool g s
    → let r = sync ips g s in IsPool r.0 r.1
unfolding sync
sync-IsPool [] g s p = p
sync-IsPool (ip ∷ ips) g s p =
    let r = add ip ip default_options g s in
    sync-IsPool ips r.0 r.1 (add-IsPool ip ip default_options g s p)

sync-keeps :
    (ips : List String) (g : Manager) (s : AgentState) (j : String) (m : Monitor)
    → get j g.monitors ≡ some m
    → get j (sync ips g s).0.monitors ≡ some m
unfolding sync
sync-keeps [] g s j m h = h
sync-keeps (ip ∷ ips) g s j m h =
    let r = add ip ip default_options g s in
    sync-keeps ips r.0 r.1 j m (add-keeps ip ip default_options g s j m h)

sync-contains :
    (ips : List String) (g : Manager) (s : AgentState)
    → All (λ ip. contains ip (sync ips g s).0.monitors ≡ true) ips
unfolding sync
sync-contains [] g s = tt
sync-contains (ip ∷ ips) g s =
    let r = add ip ip default_options g s in
    let here = add-contains ip ip default_options g s in
    (
      elim (Option-cases (get ip r.0.monitors)) [
        | inl e ↦ unfold contains in ground arith
        | inr (m, e) ↦ contains-some ip m _ (sync-keeps ips r.0 r.1 ip m e)
      ],
      sync-contains ips r.0 r.1,
    )

-- From a pool, empty or not, in which no host is watched twice and each monitor stands under its host with
-- its switch registered: after a scan's list is synced, every address of the list is watched, every
-- monitor that was there is still the same, and the pool is such a pool again.
pub sync_watches :
    (ips : List String) (g : Manager) (s : AgentState)
    → IsPool g s
    → let r = sync ips g s in
      IsPool r.0 r.1
      × All (λ ip. contains ip r.0.monitors ≡ true) ips
      × AllEntries (λ host m. get host r.0.monitors ≡ some m) g.monitors
sync_watches ips g s p = (
  sync-IsPool ips g s p,
  sync-contains ips g s,
  answers-AllEntries (λ host m. get host (sync ips g s).0.monitors ≡ some m) g.monitors p.unique
      (λ j m e. sync-keeps ips g s j m e),
)
