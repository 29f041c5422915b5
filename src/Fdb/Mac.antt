-- ===== src/Fdb/Mac.antt =====
-- The addresses of fdb.py. A text is its code points.
use aruba_network_agent.Prelude.{
  ℕ, ◌+◌, ◌-◌, ◌*◌, ◌/◌, ◌%◌, Bool, ◌&&◌, ◌||◌, Option, none, some, List, [], ◌∷◌, ◌++◌, keep,
  length, leb, ltb, nat_eq, if◌then◌else◌,
}
use aruba_network_agent.Prelude.Text.{lower, is_digit}

abbrev pub Text : Type 0
Text = List ℕ

-- `c in "0123456789abcdef"`
abbrev pub is_hex : ℕ → Bool
is_hex c = (leb b'0' c && leb c b'9') || (leb b'a' c && leb c b'f')

-- `normalize_mac`
unfoldable pub normalize_mac : Text → Option Text
unfolding lower
normalize_mac s =
    let hexs = keep is_hex (lower s) in if nat_eq (length hexs) 12 then some hexs else none

-- `":".join(c[i:i + 2] for i in …)`
unfoldable pub join_pairs : Text → Text
join_pairs [] = []
join_pairs (a ∷ []) = a ∷ []
join_pairs (a ∷ b ∷ []) = a ∷ b ∷ []
join_pairs (a ∷ b ∷ c ∷ s) = a ∷ b ∷ b':' ∷ join_pairs (c ∷ s)

-- `format_mac`
unfoldable pub format_mac : Text → Text
unfolding normalize_mac join_pairs
format_mac canon = elim (normalize_mac canon) [ none ↦ canon | some c ↦ join_pairs c ]

-- `int` of a text of digits, as the components of an OID are
abbrev pub number : ℕ → Text → ℕ
number n [] = n
number n (c ∷ s) = number (n * 10 + (c - b'0')) s

abbrev pub hex_digit : ℕ → ℕ
hex_digit n = if ltb n 10 then b'0' + n else b'a' + (n - 10)

-- `f"{int(x) & 0xFF:02x}"`
abbrev pub octet_hex : Text → Text
octet_hex s = let o = number 0 s % 256 in hex_digit (o / 16) ∷ hex_digit (o % 16) ∷ []

abbrev pub octets_hex : List Text → Option Text
octets_hex [] = some []
octets_hex (s ∷ rest) =
    let tail = octets_hex rest in
    if is_digit s then elim tail [ none ↦ none | some t ↦ some (octet_hex s ++ t) ] else none

-- `_mac_from_decimal_components`
unfoldable pub mac_from_decimal_components : List Text → Option Text
mac_from_decimal_components comps = if nat_eq (length comps) 6 then octets_hex comps else none

abbrev pub push_first : ℕ → List Text → List Text
push_first c [] = (c ∷ []) ∷ []
push_first c (w ∷ ws) = (c ∷ w) ∷ ws

-- `s.split(".")`
unfoldable pub split_dots : Text → List Text
split_dots [] = [] ∷ []
split_dots (c ∷ s) =
    let rest = split_dots s in if nat_eq c b'.' then [] ∷ rest else push_first c rest

-- `_parse_suffix_q`
unfoldable pub parse_suffix_q : Text → Option (ℕ × Text)
unfolding split_dots mac_from_decimal_components
parse_suffix_q suffix = elim (split_dots suffix) [
  | [] ↦ none
  | vlan ∷ octets ↦ elim (mac_from_decimal_components octets) [
    | none ↦ none
    | some mac ↦ some (if is_digit vlan then number 0 vlan else 0, mac)
  ]
]

-- `_parse_suffix_d`
unfoldable pub parse_suffix_d : Text → Option (ℕ × Text)
unfolding split_dots mac_from_decimal_components
parse_suffix_d suffix = elim (mac_from_decimal_components (split_dots suffix)) [
  | none ↦ none
  | some mac ↦ some (0, mac)
]
