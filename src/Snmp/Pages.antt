-- ===== src/Snmp/Pages.antt =====
-- The pages of `bulk_walk`. An object identifier is its code points.
use aruba_network_agent.Prelude.{
  ℕ, zero, suc, ◌+◌, String, Bool, true, false, not, ◌||◌, Option, none, some, List, [], ◌∷◌, ◌++◌,
  ◌==◌, ltb, length, if◌then◌else◌,
}
use aruba_network_agent.Prelude.Dict.{Dict, get, put}
use aruba_network_agent.Prelude.Text.{text_Eq, codes, starts_with, drop}

abbrev pub Oid : Type 0
Oid = List ℕ

-- A variable of an answer, as `_pairs` yields it.
abbrev pub Pair : Type 0
Pair = Oid × String

-- An answer to GETBULK: one that cannot be read, an error with the text that `last_error` gets, and
-- variables.
pub data Pdu : Type 0 where
  unreadable : Pdu
  failed : String → Pdu
  bound : List Pair → Pdu

-- The agent: the number of the request and the OID that it starts from, to its answers, or `none` where
-- the call raises. An endOfMibView is a variable as any other, with the text that pysnmp prints for it.
abbrev pub SnmpPeer : Type 0
SnmpPeer = ℕ → Oid → Option (List Pdu)

-- The variables of the loop over one column; `asked` is the number of requests so far.
pub record Walk : Type 0 where
  pub start : Oid
  pub rows : Dict Oid String
  pub seen : ℕ
  pub advanced : Bool
  pub stop : Bool
  pub asked : ℕ
  pub last_error : String

-- `oid == base or oid.startswith(base + ".")`
unfoldable pub in_subtree : Oid → Oid → Bool
unfolding starts_with
in_subtree base oid = oid == base || starts_with (base ++ codes ".") oid

-- The suffix of an OID of the subtree
unfoldable pub suffix_of : Oid → Oid → Oid
unfolding drop
suffix_of base oid = if oid == base then [] else drop (length base + 1) oid

unfoldable pub take_pair : Oid → Pair → Walk → Walk
take_pair base p w =
    if in_subtree base p.0
    then record w {
      rows = put (suffix_of base p.0) p.1 w.rows;
      start = p.0;
      advanced = true;
      seen = w.seen + 1;
    }
    else record w { stop = true }

-- The loop over the variables: it goes on after it has left the subtree.
unfoldable pub take_pairs : Oid → List Pair → Walk → Walk
unfolding take_pair
take_pairs base [] w = w
take_pairs base (p ∷ ps) w = take_pairs base ps (take_pair base p w)

-- The loop over the answers
unfoldable pub take_pdus : Oid → List Pdu → Walk → Walk
unfolding take_pairs
take_pdus base [] w = w
take_pdus base (unreadable ∷ rest) w = take_pdus base rest w
take_pdus base (failed e ∷ rest) w = record w { stop = true; last_error = e }
take_pdus base (bound ps ∷ rest) w =
    let w' = take_pairs base ps w in elim w'.stop [ true ↦ w' | false ↦ take_pdus base rest w' ]

-- How the loop ends: with its variables, because the call raised, or out of fuel.
pub data End : Type 0 where
  walked : Walk → End
  raised : ℕ → End
  out_of_fuel : End

-- The loop over the pages of one column
unfoldable pub walk_column : ℕ → ℕ → SnmpPeer → Oid → Walk → End
unfolding take_pdus
walk_column zero max_rows peer base w = out_of_fuel
walk_column (suc fuel) max_rows peer base w = elim (ltb w.seen max_rows) [
  | false ↦ walked w
  | true ↦ elim (peer w.asked w.start) [
    | none ↦ raised (w.asked + 1)
    | some pdus ↦
        let w' =
          take_pdus base pdus (record w { advanced = false; stop = false; asked = w.asked + 1 }) in
        elim (w'.stop || not w'.advanced) [
          | true ↦ walked w'
          | false ↦ walk_column fuel max_rows peer base w'
        ]
  ]
]

abbrev pub Columns : Type 0
Columns = Dict Oid (Dict Oid String)

-- What `bulk_walk` returns: the columns, or `none` where a call raised; and `last_error`, and the number
-- of requests.
pub data Outcome : Type 0 where
  returned : Option Columns → String → ℕ → Outcome
  exhausted : Outcome

abbrev pub column : Oid → Columns → Dict Oid String
column base results = elim (get base results) [ none ↦ [] | some rows ↦ rows ]

abbrev pub first_page : Oid → Columns → String → ℕ → Walk
first_page base results error asked = record {
  start = base;
  rows = column base results;
  seen = 0;
  advanced = false;
  stop = false;
  asked = asked;
  last_error = error;
}

-- The loop over the columns
unfoldable pub walk_columns : ℕ → SnmpPeer → List Oid → Columns → String → ℕ → Outcome
unfolding walk_column
walk_columns max_rows peer [] results error asked = returned (some results) error asked
walk_columns max_rows peer (base ∷ bases) results error asked =
    elim (walk_column (max_rows + 1) max_rows peer base (first_page base results error asked)) [
      | out_of_fuel ↦ exhausted
      | raised n ↦ returned none "engine_error" n
      | walked w ↦ walk_columns max_rows peer bases (put base w.rows results) w.last_error w.asked
    ]

-- `{b: {} for b in bases}`
abbrev pub no_rows : List Oid → Columns → Columns
no_rows [] results = results
no_rows (base ∷ bases) results = no_rows bases (put base [] results)

-- `bulk_walk`, from the point where the session is made
unfoldable pub bulk_walk : ℕ → SnmpPeer → List Oid → String → Outcome
unfolding walk_columns
bulk_walk max_rows peer bases error = walk_columns max_rows peer bases (no_rows bases []) error 0
