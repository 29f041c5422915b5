-- ===== src/Snmp/Ends.antt =====
-- The end of `bulk_walk` of snmp.py.
use aruba_network_agent.Prelude.{
  ℕ, zero, suc, ◌+◌, ◌-◌, ◌*◌, ◌≤◌, ◌<◌, String, ◌≡◌, Bool, true, false, not, ◌||◌, none, List, [],
  ◌∷◌, ltb, leb, length, arith, Bool-cases, Option-cases, inl, inr, if◌then◌else◌,
}
use aruba_network_agent.Prelude.Dict.{put}
use aruba_network_agent.Prelude.Text.{text_Eq}
use aruba_network_agent.Snmp.{
  Oid, Pair, Pdu, unreadable, failed, bound, SnmpPeer, Walk, take_pair, take_pairs, take_pdus, End,
  walked, raised, out_of_fuel, walk_column, Columns, first_page, no_rows, Outcome, returned,
  exhausted, walk_columns, bulk_walk,
}

take_pairs-Grows :
    (base : Oid) (ps : List Pair) (w : Walk)
    → let w' = take_pairs base ps w in
      (w.seen ≤ w'.seen)
      × (w'.asked ≡ w.asked)
      × (leb (if w'.advanced then 1 else 0) (if w.advanced then 1 else w'.seen - w.seen) ≡ true)
unfolding take_pairs take_pair
take_pairs-Grows base [] w = ground arith
take_pairs-Grows base (p ∷ ps) w =
    let rest = take_pairs-Grows base ps (take_pair base p w) in ground arith

take_pdus-Grows :
    (base : Oid) (pdus : List Pdu) (w : Walk)
    → let w' = take_pdus base pdus w in
      (w.seen ≤ w'.seen)
      × (w'.asked ≡ w.asked)
      × (leb (if w'.advanced then 1 else 0) (if w.advanced then 1 else w'.seen - w.seen) ≡ true)
unfolding take_pdus
take_pdus-Grows base [] w = ground arith
take_pdus-Grows base (unreadable ∷ rest) w = take_pdus-Grows base rest w
take_pdus-Grows base (failed e ∷ rest) w = ground arith
take_pdus-Grows base (bound ps ∷ rest) w =
    let here = take_pairs-Grows base ps w in
    let there = take_pdus-Grows base rest (take_pairs base ps w) in ground arith

-- The loop has ended, after no more requests than a number.
abbrev ends_within : ℕ → End → Bool
ends_within n (walked w) = leb w.asked n
ends_within n (raised k) = leb k n
ends_within n out_of_fuel = false

walk_column-ends :
    (fuel max_rows : ℕ) (peer : SnmpPeer) (base : Oid) (w : Walk)
    → max_rows - w.seen < fuel
    → ends_within (w.asked + (max_rows - w.seen)) (walk_column fuel max_rows peer base w) ≡ true
unfolding walk_column
walk_column-ends zero max_rows peer base w h = ground arith
walk_column-ends (suc fuel) max_rows peer base w h = elim (Bool-cases (ltb w.seen max_rows)) [
  | inl e ↦ elim (Option-cases (peer w.asked w.start)) [
    | inl f ↦ ground arith
    | inr (pdus, f) ↦
        let from = record w { advanced = false; stop = false; asked = w.asked + 1 } in
        let w' = take_pdus base pdus from in
        let grows = take_pdus-Grows base pdus from in
        elim (Bool-cases (w'.stop || not w'.advanced)) [
          | inl g ↦ ground arith
          | inr g ↦
              let less : max_rows - w'.seen < fuel = ground arith in
              let rest = walk_column-ends fuel max_rows peer base w' less in ground arith
        ]
  ]
  | inr e ↦ ground arith
]

abbrev pub returns_within : ℕ → Outcome → Bool
returns_within n (returned rows e k) = leb k n
returns_within n exhausted = false

later : (n m : ℕ) (o : Outcome) → n ≤ m → returns_within n o ≡ true → returns_within m o ≡ true
later n m (returned rows e k) le h = ground arith
later n m exhausted le h = h

walk_columns-returns :
    (max_rows : ℕ) (peer : SnmpPeer) (bases : List Oid) (results : Columns) (e : String) (asked : ℕ)
    → returns_within
        (asked + length bases * max_rows)
        (walk_columns max_rows peer bases results e asked)
      ≡ true
unfolding walk_columns
walk_columns-returns max_rows peer [] results e asked = ground arith
walk_columns-returns max_rows peer (base ∷ bases) results e asked =
    let first = first_page base results e asked in
    go (walk_column (max_rows + 1) max_rows peer base first)
      (walk_column-ends (max_rows + 1) max_rows peer base first (omega arith))
      (λ w. walk_columns-returns max_rows peer bases (put base w.rows results) w.last_error w.asked)
  where
    go :
        (end : End)
        → ends_within (asked + (max_rows - 0)) end ≡ true
        → ((w : Walk)
            → returns_within
                (w.asked + length bases * max_rows)
                (walk_columns max_rows peer bases (put base w.rows results) w.last_error w.asked)
              ≡ true)
        → returns_within (asked + length (base ∷ bases) * max_rows) (elim end [
          | out_of_fuel ↦ exhausted
          | raised n ↦ returned none "engine_error" n
          | walked w ↦
              walk_columns max_rows peer bases (put base w.rows results) w.last_error w.asked
        ])
          ≡ true
    go out_of_fuel h rest = ground arith
    go (raised n) h rest = ground arith
    go (walked w) h rest =
        let here = rest w in
        later (w.asked + length bases * max_rows) (asked + length (base ∷ bases) * max_rows)
          (walk_columns max_rows peer bases (put base w.rows results) w.last_error w.asked)
          (ground arith) here

-- Whatever the device answers, even the same variable again and again: the walk returns, with no fuel
-- wanting, after at most `max_rows` requests for each column.
pub bulk_walk_ends :
    (max_rows : ℕ) (peer : SnmpPeer) (bases : List Oid) (e : String)
    → returns_within (length bases * max_rows) (bulk_walk max_rows peer bases e) ≡ true
unfolding bulk_walk
bulk_walk_ends max_rows peer bases e =
    let h = walk_columns-returns max_rows peer bases (no_rows bases []) e 0 in ground arith
