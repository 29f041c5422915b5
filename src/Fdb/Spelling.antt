-- ===== src/Fdb/Spelling.antt =====
-- The spellings of an address, fdb.py.
use aruba_network_agent.Prelude.{
  ℕ, ◌*◌, ◌/◌, ◌%◌, ◌≡◌, refl, subst, Bool, true, false, Option, none, some, List, [], ◌∷◌, ◌++◌,
  keep, length, nat_eq, ltb, arith, All, Bool-cases, pair_Eq, inl, inr, if◌then◌else◌,
}
use aruba_network_agent.Prelude.Dict.{Dict}
use aruba_network_agent.Prelude.Text.{lower, lower_code, is_digit, text_Eq}
use aruba_network_agent.Fdb.{
  Text, is_hex, normalize_mac, join_pairs, format_mac, number, hex_digit, octet_hex, octets_hex,
  mac_from_decimal_components, split_dots, parse_suffix_q, parse_suffix_d, Columns, Learned, learn,
  resolve_if, raw_of, raw_learned, port_to_if, Dedupe, among, dedupe_step, dedupe, record_of,
  records_of, assemble_fdb,
}

abbrev IsHex : ℕ → Type 0
IsHex c = is_hex c ≡ true

-- Twelve digits in lower case
abbrev IsCanonical : Text → Type 0
IsCanonical mac = All IsHex mac × (length mac ≡ 12)

keep-lower : (mac : Text) → All IsHex mac → keep is_hex (lower mac) ≡ mac
unfolding lower lower_code
keep-lower [] h = refl
keep-lower (c ∷ mac) h = let first = h.0 in let rest = keep-lower mac h.1 in ground arith

keep-lower-join_pairs : (mac : Text) → All IsHex mac → keep is_hex (lower (join_pairs mac)) ≡ mac
unfolding lower lower_code join_pairs
keep-lower-join_pairs [] h = refl
keep-lower-join_pairs (a ∷ []) h = let first = h.0 in ground arith
keep-lower-join_pairs (a ∷ b ∷ []) h = let first = h.0 in let second = h.1.0 in ground arith
keep-lower-join_pairs (a ∷ b ∷ c ∷ mac) h =
    let first = h.0 in
    let second = h.1.0 in let rest = keep-lower-join_pairs (c ∷ mac) h.1.1 in ground arith

normalize_mac-format_mac :
    (mac : Text) → IsCanonical mac → normalize_mac (format_mac mac) ≡ some mac
unfolding normalize_mac format_mac
normalize_mac-format_mac mac h =
    let plain = keep-lower mac h.0 in
    let joined = keep-lower-join_pairs mac h.0 in let twelve = h.1 in ground arith

hex_digit-IsHex : (n : ℕ) → ltb n 16 ≡ true → IsHex (hex_digit n)
hex_digit-IsHex n h = ground arith

octet_hex-All : (s : Text) → All IsHex (octet_hex s)
octet_hex-All s =
    let o = number 0 s % 256 in
    (hex_digit-IsHex (o / 16) (ground arith), (hex_digit-IsHex (o % 16) (ground arith), tt))

-- A result, if there is one, is made of so many digits.
abbrev IsSized : ℕ → Option Text → Type 0
IsSized n none = Unit
IsSized n (some mac) = All IsHex mac × (length mac ≡ n)

octets_hex-IsSized : (comps : List Text) → IsSized (2 * length comps) (octets_hex comps)
octets_hex-IsSized [] = (tt, refl)
octets_hex-IsSized (s ∷ comps) = go (is_digit s) (octets_hex comps) (octets_hex-IsSized comps)
  where
    go :
        (b : Bool) (tail : Option Text)
        → IsSized (2 * length comps) tail
        → IsSized (2 * length (s ∷ comps)) (
            if b
            then (elim tail as (λ _. Option Text) [
              | none ↦ none
              | some t ↦ some (octet_hex s ++ t)
            ])
            else none)
    go false tail h = tt
    go true none h = tt
    go true (some t) h =
        let here = octet_hex-All s in ((here.0, (here.1.0, h.0)), omega (arith, h.1))

mac_from-IsSized : (comps : List Text) → IsSized 12 (mac_from_decimal_components comps)
unfolding mac_from_decimal_components
mac_from-IsSized comps = elim (Bool-cases (nat_eq (length comps) 6)) [
  | inr e ↦ rw e tt
  | inl e ↦
      let six : 2 * length comps ≡ 12 = ground arith in
      rw e (subst (λ n. IsSized n (octets_hex comps)) six (octets_hex-IsSized comps))
]

abbrev IsParsed : Option (ℕ × Text) → Type 0
IsParsed none = Unit
IsParsed (some p) = IsCanonical p.1

parse_suffix_q-IsParsed : (suffix : Text) → IsParsed (parse_suffix_q suffix)
unfolding parse_suffix_q
parse_suffix_q-IsParsed suffix = go (split_dots suffix)
  where
    then_mac :
        (n : ℕ) (o : Option Text)
        → IsSized 12 o
        → IsParsed (elim o as (λ _. Option (ℕ × Text)) [ none ↦ none | some mac ↦ some (n, mac) ])
    then_mac n none h = tt
    then_mac n (some mac) h = h

    go :
        (parts : List Text)
        → IsParsed (elim parts as (λ _. Option (ℕ × Text)) [
          | [] ↦ none
          | vlan ∷ octets ↦ elim (mac_from_decimal_components octets) [
            | none ↦ none
            | some mac ↦ some (if is_digit vlan then number 0 vlan else 0, mac)
          ]
        ])
    go [] = tt
    go (vlan ∷ octets) =
        then_mac (if is_digit vlan then number 0 vlan else 0) (mac_from_decimal_components octets)
          (mac_from-IsSized octets)

parse_suffix_d-IsParsed : (suffix : Text) → IsParsed (parse_suffix_d suffix)
unfolding parse_suffix_d
parse_suffix_d-IsParsed suffix =
    go (mac_from_decimal_components (split_dots suffix)) (mac_from-IsSized (split_dots suffix))
  where
    go :
        (o : Option Text)
        → IsSized 12 o
        → IsParsed (elim o as (λ _. Option (ℕ × Text)) [ none ↦ none | some mac ↦ some (0, mac) ])
    go none h = tt
    go (some mac) h = h

abbrev AreCanonical : List Learned → Type 0
AreCanonical = All (λ l. IsCanonical l.1.0)

learn-AreCanonical :
    (p : Option (ℕ × Text)) (index : Option Text) (rest : List Learned)
    → IsParsed p
    → AreCanonical rest
    → AreCanonical (learn p index rest)
learn-AreCanonical none index rest h k = k
learn-AreCanonical (some p) none rest h k = k
learn-AreCanonical (some p) (some []) rest h k = k
learn-AreCanonical (some p) (some (c ∷ s)) rest h k = (h, k)

raw_of-AreCanonical :
    (parse : Text → Option (ℕ × Text)) (ports fdb : Dict Text Text)
    → ((s : Text) → IsParsed (parse s))
    → AreCanonical (raw_of parse ports fdb)
unfolding raw_of
raw_of-AreCanonical parse ports [] h = tt
raw_of-AreCanonical parse ports (e ∷ fdb) h =
    learn-AreCanonical (parse e.0) (resolve_if ports e.1) (raw_of parse ports fdb) (h e.0)
      (raw_of-AreCanonical parse ports fdb h)

raw_learned-AreCanonical : (columns : Columns) → AreCanonical (raw_learned columns)
raw_learned-AreCanonical columns = go columns.q_fdb
  where
    ports : Dict Text Text
    ports = port_to_if [] columns.base_if

    go :
        (q : Dict Text Text)
        → AreCanonical (elim q as (λ _. List Learned) [
          | [] ↦ raw_of parse_suffix_d ports columns.d_fdb
          | e ∷ fdb ↦ raw_of parse_suffix_q ports (e ∷ fdb)
        ])
    go [] = raw_of-AreCanonical parse_suffix_d ports columns.d_fdb parse_suffix_d-IsParsed
    go (e ∷ fdb) = raw_of-AreCanonical parse_suffix_q ports (e ∷ fdb) parse_suffix_q-IsParsed

All-snoc :
    (ls : List Learned) (l : Learned)
    → AreCanonical ls
    → IsCanonical l.1.0
    → AreCanonical (ls ++ l ∷ [])
All-snoc [] l h k = (k, tt)
All-snoc (x ∷ ls) l h k = (h.0, All-snoc ls l h.1 k)

dedupe-AreCanonical :
    (raw : List Learned) (d : Dedupe)
    → AreCanonical raw
    → AreCanonical d.deduped
    → AreCanonical (dedupe raw d).deduped
unfolding dedupe
dedupe-AreCanonical [] d h k = k
dedupe-AreCanonical (l ∷ raw) d h k =
    dedupe-AreCanonical raw (dedupe_step l d) h.1 (elim (Bool-cases (among l.1 d.seen)) [
      | inl e ↦ unfold dedupe_step in rw e k
      | inr e ↦ unfold dedupe_step in rw e (All-snoc d.deduped l k h.0)
    ])

records_of-spelled :
    (names : Dict Text Text) (per_if : Dict Text (List Text)) (ls : List Learned)
    → AreCanonical ls
    → All (λ r. normalize_mac r.mac_fmt ≡ some r.mac) (records_of names per_if ls)
unfolding records_of record_of
records_of-spelled names per_if [] h = tt
records_of-spelled names per_if (l ∷ ls) h =
    (normalize_mac-format_mac l.1.0 h.0, records_of-spelled names per_if ls h.1)

-- Whatever a device answers: the address of each record, printed for people, reads back as the address
-- under which the record is stored.
pub spelling_round_trip :
    (columns : Columns) → All (λ r. normalize_mac r.mac_fmt ≡ some r.mac) (assemble_fdb columns)
unfolding assemble_fdb
spelling_round_trip columns =
    let start : Dedupe = record { seen = []; per_if_macs = []; deduped = [] } in
    let d = dedupe (raw_learned columns) start in
    records_of-spelled columns.if_name d.per_if_macs d.deduped
      (dedupe-AreCanonical (raw_learned columns) start (raw_learned-AreCanonical columns) tt)
