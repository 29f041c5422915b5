-- ===== src/Traps/Classify.antt =====
-- traps.py. A text is the list of its code points; a variable binding is its OID and its value.
use aruba_network_agent.Prelude.{
  ℕ, ◌+◌, String, Bool, true, false, ◌&&◌, ◌||◌, Option, none, some, List, [], ◌∷◌, ◌++◌, leb,
  length, if◌then◌else◌,
}
use aruba_network_agent.Prelude.Text.{
  codes, lower, strip, starts_with, is_infix, is_digit, drop, same_text,
}

pub data Category : Type 0 where
  system link auth hardware other : Category

pub data Severity : Type 0 where
  info warning critical : Severity

abbrev pub Binding : Type 0
Binding = List ℕ × List ℕ

pub record Trap : Type 0 where
  pub name : List ℕ
  pub category : Category
  pub severity : Severity
  pub oid : List ℕ
  pub ifindex : Option (List ℕ)

-- `GENERIC`
abbrev pub generic : List (List ℕ × (List ℕ × (Category × Severity)))
generic =
    (codes "1.3.6.1.6.3.1.1.5.1", (codes "coldStart", (system, warning)))
    ∷ (codes "1.3.6.1.6.3.1.1.5.2", (codes "warmStart", (system, info)))
    ∷ (codes "1.3.6.1.6.3.1.1.5.3", (codes "linkDown", (link, warning)))
    ∷ (codes "1.3.6.1.6.3.1.1.5.4", (codes "linkUp", (link, info)))
    ∷ (codes "1.3.6.1.6.3.1.1.5.5", (codes "authenticationFailure", (auth, warning)))
    ∷ []

-- `OID_IF_INDEX`
abbrev pub oid_if_index : List ℕ
oid_if_index = codes "1.3.6.1.2.1.2.2.1.1"

-- `_HARDWARE_HINTS`, `_DOWN_HINTS`
abbrev pub hardware_hints : List String
hardware_hints =
    "powersupply" ∷ "power supply" ∷ "psu" ∷ "power-supply" ∷ "fan" ∷ "temperature" ∷ "thermal"
    ∷ "overheat" ∷ "over-temp" ∷ "vsf" ∷ "stack" ∷ "member" ∷ "fabric" ∷ "fault" ∷ "failed"
    ∷ "failure" ∷ "redundan" ∷ "module down" ∷ "poweroff" ∷ "hotswap" ∷ []

abbrev pub down_hints : List String
down_hints = "down" ∷ "fail" ∷ "fault" ∷ "off" ∷ "removed" ∷ "critical" ∷ "major" ∷ []

-- `" ".join(...)` of the values
unfoldable pub joined : List Binding → List ℕ
joined [] = []
joined (b ∷ bs) = elim bs [ [] ↦ b.1 | c ∷ cs ↦ b.1 ++ b' ' ∷ joined bs ]

-- `_text_of`
unfoldable pub text_of : List Binding → List ℕ
unfolding joined lower
text_of bs = lower (joined bs)

unfoldable pub any_hint : List String → List ℕ → Bool
unfolding is_infix
any_hint [] blob = false
any_hint (h ∷ hs) blob = is_infix (codes h) blob || any_hint hs blob

-- `extract_ifindex`
unfoldable pub extract_ifindex : List Binding → Option (List ℕ)
unfolding same_text starts_with strip is_digit drop
extract_ifindex [] = none
extract_ifindex (b ∷ bs) =
    let rest = extract_ifindex bs in
    let tail = drop (length oid_if_index + 1) b.0 in
    if same_text b.0 oid_if_index || starts_with (oid_if_index ++ b'.' ∷ []) b.0
    then if is_digit (strip b.1)
      then some (strip b.1)
      else if is_digit tail
      then some tail
      else rest
    else rest

unfoldable pub find_generic :
    List ℕ
    → List (List ℕ × (List ℕ × (Category × Severity)))
    → Option (List ℕ × (Category × Severity))
unfolding same_text
find_generic oid [] = none
find_generic oid (e ∷ es) = if same_text e.0 oid then some e.1 else find_generic oid es

abbrev pub is_link : Category → Bool
is_link link = true
is_link _ = false

abbrev pub or_name : List ℕ → List ℕ → List ℕ
or_name [] dflt = dflt
or_name (c ∷ s) dflt = c ∷ s

-- The part of `classify_trap` for the traps that are not in the table.
unfoldable pub classify_other : List ℕ → List Binding → List ℕ → Trap
unfolding text_of any_hint lower
classify_other oid bs name_hint =
    let blob = lower (name_hint ++ b' ' ∷ text_of bs) in
    if any_hint hardware_hints blob
    then record {
      name = or_name name_hint (codes "enterprise-hardware");
      category = hardware;
      severity = if any_hint down_hints blob then critical else warning;
      oid = oid;
      ifindex = none;
    }
    else record {
      name = or_name name_hint (codes "enterprise");
      category = other;
      severity = info;
      oid = oid;
      ifindex = none;
    }

-- `classify_trap`
unfoldable pub classify_trap : List ℕ → List Binding → List ℕ → Trap
unfolding strip find_generic extract_ifindex classify_other
classify_trap trap_oid bs name_hint = elim (find_generic (strip trap_oid) generic) [
  | none ↦ classify_other (strip trap_oid) bs name_hint
  | some (name, (category, severity)) ↦ record {
    name = name;
    category = category;
    severity = severity;
    oid = strip trap_oid;
    ifindex = if is_link category then extract_ifindex bs else none;
  }
]

-- `_SEV_RANK`
abbrev pub sev_rank : Severity → ℕ
sev_rank info = 0
sev_rank warning = 1
sev_rank critical = 2

-- `(policy or "critical").strip().lower()`
unfoldable pub policy_of : List ℕ → List ℕ
unfolding strip lower
policy_of policy = lower (strip (or_name policy (codes "critical")))

-- `should_alert`
unfoldable pub should_alert : Trap → List ℕ → Bool
unfolding policy_of same_text
should_alert t policy =
    if same_text (policy_of policy) (codes "none") then false else elim t.category [
      | link ↦
          same_text (policy_of policy) (codes "critical+linkdown")
          && same_text t.name (codes "linkDown")
      | system ↦ same_text t.name (codes "coldStart")
      | auth ↦ leb (sev_rank warning) (sev_rank t.severity)
      | hardware ↦ leb (sev_rank warning) (sev_rank t.severity)
      | other ↦ false
    ]
