-- ===== src/Fdb/Table.antt =====
-- `assemble_fdb` of fdb.py.
use aruba_network_agent.Prelude.{
  ℕ, Bool, false, ◌||◌, Option, none, some, List, [], ◌∷◌, ◌++◌, ◌==◌, Eq, pair_Eq, nat_Eq, length,
  nat_eq, if◌then◌else◌,
}
use aruba_network_agent.Prelude.Dict.{Dict, get, put}
use aruba_network_agent.Prelude.Text.{text_Eq, codes, strip, is_digit}
use aruba_network_agent.Fdb.Mac.{Text, format_mac, parse_suffix_q, parse_suffix_d}

-- The walked columns, by their bases
pub record Columns : Type 0 where
  pub q_fdb : Dict Text Text
  pub d_fdb : Dict Text Text
  pub base_if : Dict Text Text
  pub if_name : Dict Text Text

-- `str(int(s))` of a text of digits: without the zeros in front
abbrev pub no_zeros : Text → Text
no_zeros [] = []
no_zeros (c ∷ []) = c ∷ []
no_zeros (c ∷ d ∷ s) = let rest = no_zeros (d ∷ s) in if nat_eq c b'0' then rest else c ∷ d ∷ s

-- The loop that makes `port_to_if`
unfoldable pub port_to_if : Dict Text Text → Dict Text Text → Dict Text Text
unfolding strip is_digit
port_to_if d [] = d
port_to_if d (e ∷ base_if) =
    let index = strip e.1 in
    port_to_if (if is_digit index then put (strip e.0) (no_zeros index) d else d) base_if

-- `resolve_if`
unfoldable pub resolve_if : Dict Text Text → Text → Option Text
unfolding strip
resolve_if ports bridge_port =
    let bp = strip bridge_port in
    if bp == [] || bp == codes "0"
    then none
    else elim (get bp ports) [ none ↦ some bp | some index ↦ some index ]

-- (vlan, mac, ifindex)
abbrev pub Learned : Type 0
Learned = ℕ × (Text × Text)

abbrev pub learn : Option (ℕ × Text) → Option Text → List Learned → List Learned
learn none index rest = rest
learn (some p) none rest = rest
learn (some p) (some []) rest = rest
learn (some p) (some (c ∷ s)) rest = (p.0, (p.1, c ∷ s)) ∷ rest

-- The two loops that make `raw`
unfoldable pub raw_of : (Text → Option (ℕ × Text)) → Dict Text Text → Dict Text Text → List Learned
unfolding resolve_if
raw_of parse ports [] = []
raw_of parse ports (e ∷ fdb) = learn (parse e.0) (resolve_if ports e.1) (raw_of parse ports fdb)

-- `x in s` and `s.add(x)`, of a set as a list
unfoldable pub among {ℓ} : {A : Type ℓ} ⦃q : Eq A⦄ → A → List A → Bool
among x [] = false
among x (y ∷ ys) = y == x || among x ys

unfoldable pub add_to {ℓ} : {A : Type ℓ} ⦃q : Eq A⦄ → A → List A → List A
unfolding among
add_to x ys = if among x ys then ys else ys ++ x ∷ []

pub record Dedupe : Type 0 where
  pub seen : List (Text × Text)
  pub per_if_macs : Dict Text (List Text)
  pub deduped : List Learned

-- `per_if_macs.get(ifidx, ())`
abbrev pub macs_of : Text → Dict Text (List Text) → List Text
macs_of index d = elim (get index d) [ none ↦ [] | some macs ↦ macs ]

unfoldable pub dedupe_step : Learned → Dedupe → Dedupe
unfolding add_to
dedupe_step l d =
    let counted = record d {
      per_if_macs = put l.1.1 (add_to l.1.0 (macs_of l.1.1 d.per_if_macs)) d.per_if_macs;
    } in
    if among l.1 d.seen
    then counted
    else record counted { seen = add_to l.1 d.seen; deduped = d.deduped ++ l ∷ [] }

-- The loop over `raw`
unfoldable pub dedupe : List Learned → Dedupe → Dedupe
unfolding dedupe_step
dedupe [] d = d
dedupe (l ∷ raw) d = dedupe raw (dedupe_step l d)

pub record MacRecord : Type 0 where
  pub mac : Text
  pub mac_fmt : Text
  pub vlan : ℕ
  pub ifindex : Text
  pub ifname : Text
  pub port_mac_count : ℕ

unfoldable pub record_of : Dict Text Text → Dict Text (List Text) → Learned → MacRecord
unfolding format_mac
record_of if_name per_if l = record {
  mac = l.1.0;
  mac_fmt = format_mac l.1.0;
  vlan = l.0;
  ifindex = l.1.1;
  ifname = elim (get l.1.1 if_name) [ none ↦ codes "if" ++ l.1.1 | some name ↦ name ];
  port_mac_count = length (macs_of l.1.1 per_if);
}

unfoldable pub records_of : Dict Text Text → Dict Text (List Text) → List Learned → List MacRecord
unfolding record_of
records_of if_name per_if [] = []
records_of if_name per_if (l ∷ ls) = record_of if_name per_if l ∷ records_of if_name per_if ls

abbrev pub raw_learned : Columns → List Learned
raw_learned columns =
    let ports = port_to_if [] columns.base_if in
    elim columns.q_fdb [
      | [] ↦ raw_of parse_suffix_d ports columns.d_fdb
      | e ∷ fdb ↦ raw_of parse_suffix_q ports (e ∷ fdb)
    ]

-- `assemble_fdb`
unfoldable pub assemble_fdb : Columns → List MacRecord
unfolding dedupe records_of
assemble_fdb columns =
    let d = dedupe (raw_learned columns) (record { seen = []; per_if_macs = []; deduped = [] }) in
    records_of columns.if_name d.per_if_macs d.deduped
