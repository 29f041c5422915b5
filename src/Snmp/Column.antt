-- ===== src/Snmp/Column.antt =====
-- The loop of `bulk_walk` of snmp.py over the pages of one column.
use mathlib.Core.List.{append-nil, append_assoc}
use aruba_network_agent.Prelude.{
  ℕ, zero, suc, ◌+◌, ◌-◌, ◌≤◌, ◌<◌, String, ◌≡◌, refl, sym, ap, ◌∙◌, Bool, true, false, not, ◌||◌,
  some, List, [], ◌∷◌, ◌++◌, ltb, length, length-append, All, arith, Bool-cases, inl, inr,
  if◌then◌else◌,
}
use aruba_network_agent.Prelude.Dict.{put, IsUnique}
use aruba_network_agent.Prelude.Text.{text_Eq}
use aruba_network_agent.Snmp.{
  Oid, Pair, bound, SnmpPeer, Walk, take_pairs, take_pdus, in_subtree, End, walked, walk_column,
  first_page, Columns, returned, walk_columns,
}
use aruba_network_agent.Snmp.Page.{
  take, suffixes, last_oid, skip, take-skip, HasRead, is_some_row, take_pairs-HasRead,
  take_pairs-stop, All-skip,
}

-- A device that has the rows of a column, and others behind them: a request from the column or a row
-- gets a page of those that follow, whose size may be another for each request.
abbrev pub Answers : SnmpPeer → Oid → (ℕ → ℕ) → List Pair → (ℕ → List Pair) → Type 0
Answers peer base page rows rest =
    (asked : ℕ) (before after : List Pair)
    → before ++ after ≡ rows
    → peer asked (last_oid base before)
      ≡ some (bound (take (suc (page asked)) (after ++ rest asked)) ∷ [])

-- The variables at the start of a page.
abbrev turned : Walk → Walk
turned w = record w { advanced = false; stop = false; asked = w.asked + 1 }

walk_column-full :
    (fuel max_rows : ℕ) (peer : SnmpPeer) (base : Oid) (w : Walk)
    → ltb w.seen max_rows ≡ false
    → walk_column (suc fuel) max_rows peer base w ≡ walked w
unfolding walk_column
walk_column-full fuel max_rows peer base w full = ground arith

walk_column-page :
    (fuel max_rows : ℕ) (peer : SnmpPeer) (base : Oid) (ps : List Pair) (w : Walk)
    → ltb w.seen max_rows ≡ true
    → peer w.asked w.start ≡ some (bound ps ∷ [])
    → let w' = take_pairs base ps (turned w) in
      walk_column (suc fuel) max_rows peer base w
      ≡ (if w'.stop || not w'.advanced then walked w' else walk_column fuel max_rows peer base w')
unfolding walk_column take_pdus
walk_column-page fuel max_rows peer base ps w room answer = ground arith

no_row : (n : ℕ) (ps : List Pair) → is_some_row (take (suc n) ps) ≡ false → skip (suc n) ps ≡ []
no_row n [] h = refl
no_row n (p ∷ ps) h = ground arith

all_seen :
    (before after : List Pair) (n : ℕ)
    → length (before ++ after) ≤ n
    → n ≤ length before
    → after ≡ []
all_seen before [] n fits full = refl
all_seen before (p ∷ after) n fits full =
    let counted = length-append before (p ∷ after) in ground arith

whole_of : (before after rows : List Pair) → before ++ after ≡ rows → after ≡ [] → before ≡ rows
whole_of before after rows whole none_left =
    sym (append-nil before) ∙ ap (λ ps. before ++ ps) (sym none_left) ∙ whole

chosen : {t : Bool} (x y : End) → t ≡ false → (if t then x else y) ≡ y
chosen x y e = ground arith

more_seen : (before ps : List Pair) → is_some_row ps ≡ true → length before < length (before ++ ps)
more_seen before [] h = ground arith
more_seen before (p ∷ ps) h = omega (arith, length-append before (p ∷ ps))

-- What one page of the device brings: its rows are read; where the loop ends none is left, and where
-- it goes on there are more than before.
page-HasRead :
    (page : ℕ) (base : Oid) (before after rest : List Pair) (w : Walk)
    → IsUnique (suffixes base (before ++ after))
    → All (λ p. in_subtree base p.0 ≡ true) after
    → All (λ p. in_subtree base p.0 ≡ false) rest
    → HasRead base before w
    → let w' = take_pairs base (take (suc page) (after ++ rest)) (turned w) in
      HasRead base (before ++ take (suc page) after) w'
      × ((w'.stop || not w'.advanced) ≡ true → skip (suc page) after ≡ [])
      × ((w'.stop || not w'.advanced) ≡ false → w.seen < w'.seen)
page-HasRead page base before after rest w unique inside outside h =
    let w' = take_pairs base (take (suc page) (after ++ rest)) (turned w) in
    let turn : HasRead base before (turned w) = record {
      rows = h.rows;
      start = h.start;
      seen = h.seen;
    } in
    let read =
      take_pairs-HasRead (suc page) base before after rest (turned w) turn unique inside outside in
    let advanced = read.1 in
    (
      read.0,
      λ ends. elim (Bool-cases w'.stop) [
        | inl s ↦ take_pairs-stop (suc page) base after rest (turned w) inside refl s
        | inr s ↦ no_row page after (ground arith)
      ],
      λ goes.
          let grown = more_seen before (take (suc page) after) (ground arith) in
          omega (arith, grown, h.seen, read.0.seen),
    )

-- The loop reads the rest of the column.
pub walk_column-rows :
    (fuel max_rows : ℕ) (page : ℕ → ℕ) (peer : SnmpPeer) (base : Oid) (rows : List Pair)
    (rest : ℕ → List Pair) (before after : List Pair) (w : Walk)
    → Answers peer base page rows rest
    → IsUnique (suffixes base rows)
    → ((asked : ℕ) → All (λ p. in_subtree base p.0 ≡ false) (rest asked))
    → length rows ≤ max_rows
    → before ++ after ≡ rows
    → All (λ p. in_subtree base p.0 ≡ true) after
    → HasRead base before w
    → max_rows - w.seen < fuel
    → (w' : Walk) × (walk_column fuel max_rows peer base w ≡ walked w')
      × (w'.rows ≡ suffixes base rows)
walk_column-rows zero max_rows page peer base rows rest before after w serves unique outside fits
      whole inside h enough =
    ground arith
walk_column-rows (suc fuel) max_rows page peer base rows rest before after w serves unique outside
      fits whole inside h enough =
    let ps = take (suc (page w.asked)) (after ++ rest w.asked) in
    let w' = take_pairs base ps (turned w) in
    let read =
      page-HasRead (page w.asked) base before after (rest w.asked) w (rw whole unique) inside
        (outside w.asked) h in
    let start : peer w.asked w.start ≡ some (bound ps ∷ []) =
      rw h.start (serves w.asked before after whole) in
    let parts : (before ++ take (suc (page w.asked)) after) ++ skip (suc (page w.asked)) after
        ≡ rows =
      append_assoc before (take (suc (page w.asked)) after) (skip (suc (page w.asked)) after)
      ∙ ap (λ qs. before ++ qs) (take-skip (suc (page w.asked)) after)
      ∙ whole in
    elim (Bool-cases (ltb w.seen max_rows)) [
      | inr e ↦
          let size = ap (λ qs. length qs) whole in
          let seen = h.seen in
          let none_left =
            all_seen before after max_rows (omega (arith, size, fits)) (ground arith) in
          (
            w,
            walk_column-full fuel max_rows peer base w e,
            h.rows ∙ ap (suffixes base) (whole_of before after rows whole none_left),
          )
      | inl e ↦
          let step = walk_column-page fuel max_rows peer base ps w e start in
          elim (Bool-cases (w'.stop || not w'.advanced)) [
            | inl g ↦
                let all_read =
                  whole_of (before ++ take (suc (page w.asked)) after)
                    (skip (suc (page w.asked)) after) rows parts (read.1 g) in
                (w', step ∙ ground arith, read.0.rows ∙ ap (suffixes base) all_read)
            | inr g ↦
                let more = read.2 g in
                let less : max_rows - w'.seen < fuel = ground arith in
                let r =
                  walk_column-rows fuel max_rows page peer base rows rest
                    (before ++ take (suc (page w.asked)) after) (skip (suc (page w.asked)) after) w'
                    serves unique outside fits parts
                    (All-skip (λ p. in_subtree base p.0 ≡ true) (suc (page w.asked)) after inside)
                    read.0 less in
                (
                  r.0,
                  step ∙ chosen (walked w') (walk_column fuel max_rows peer base w') g ∙ r.1,
                  r.2,
                )
          ]
    ]

pub walk_columns-one :
    (max_rows : ℕ) (peer : SnmpPeer) (base : Oid) (results : Columns) (e : String) (asked : ℕ)
    (w : Walk)
    → walk_column (max_rows + 1) max_rows peer base (first_page base results e asked) ≡ walked w
    → walk_columns max_rows peer (base ∷ []) results e asked
      ≡ returned (some (put base w.rows results)) w.last_error w.asked
unfolding walk_columns
walk_columns-one max_rows peer base results e asked w h = ground arith
