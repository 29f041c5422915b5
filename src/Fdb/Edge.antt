-- ===== src/Fdb/Edge.antt =====
-- `search` of l2_discovery.py against the least count of each device.
use mathlib.Core.List.{Mem}
use aruba_network_agent.Prelude.{
  ℕ, ◌≤◌, String, ◌≡◌, refl, sym, ap, subst, ◌∙◌, Bool, true, false, Option, none, some, List, [],
  ◌∷◌, ◌==◌, ==_iff, string_Eq, leb, length, All, arith, Bool-cases, Option-cases, inl, inr,
  if◌then◌else◌,
}
use aruba_network_agent.Prelude.Dict.{Dict, get, values, IsUnique, get-put, put-IsUnique}
use aruba_network_agent.Prelude.Dict.Entries.{AllEntries, put-AllEntries}
use aruba_network_agent.Fdb.{
  Text, FdbRow, mac_count, best_step, best_of, insert_row, sort_rows, normalize_mac, search,
}
use aruba_network_agent.Fdb.Rows.{
  best_step-cases, best_of-All, values-All, sort_rows-All, every_row,
}

-- The counts of the rows of a device.
abbrev pub counts_of : String → List FdbRow → List ℕ
counts_of device [] = []
counts_of device (r ∷ rows) =
    let rest = counts_of device rows in if r.device == device then mac_count r ∷ rest else rest

abbrev pub smaller : ℕ → Option ℕ → ℕ
smaller n none = n
smaller n (some m) = if leb n m then n else m

-- The least count of the rows of a device, if it has any.
abbrev pub least : String → List FdbRow → Option ℕ
least device [] = none
least device (r ∷ rows) =
    let rest = least device rows in
    if r.device == device then some (smaller (mac_count r) rest) else rest

abbrev pub as_list : Option ℕ → List ℕ
as_list none = []
as_list (some n) = n ∷ []

-- Each row has at least the count of the row before it.
abbrev pub IsSorted : List FdbRow → Type 0
IsSorted [] = Unit
IsSorted (r ∷ []) = Unit
IsSorted (r ∷ s ∷ rows) = (mac_count r ≤ mac_count s) × IsSorted (s ∷ rows)

insert_row-IsSorted :
    (r : FdbRow) (rows : List FdbRow) → IsSorted rows → IsSorted (insert_row r rows)
unfolding insert_row
insert_row-IsSorted r [] h = tt
insert_row-IsSorted r (s ∷ []) h = ground arith
insert_row-IsSorted r (s ∷ t ∷ rows) h =
    let rest = insert_row-IsSorted r (t ∷ rows) h.1 in let first = h.0 in ground arith

sort_rows-IsSorted : (rows : List FdbRow) → IsSorted (sort_rows rows)
unfolding sort_rows
sort_rows-IsSorted [] = tt
sort_rows-IsSorted (r ∷ rows) = insert_row-IsSorted r (sort_rows rows) (sort_rows-IsSorted rows)

insert_row-other :
    (device : String) (r : FdbRow) (rows : List FdbRow)
    → (r.device == device) ≡ false
    → counts_of device (insert_row r rows) ≡ counts_of device rows
unfolding insert_row
insert_row-other device r [] e = ground arith
insert_row-other device r (s ∷ rows) e = let rest = insert_row-other device r rows e in ground arith

insert_row-own :
    (device : String) (r : FdbRow) (rows : List FdbRow)
    → (r.device == device) ≡ true
    → counts_of device rows ≡ []
    → counts_of device (insert_row r rows) ≡ mac_count r ∷ []
unfolding insert_row
insert_row-own device r [] e none_there = ground arith
insert_row-own device r (s ∷ rows) e none_there = elim (Bool-cases (s.device == device)) [
  | inl x ↦ ground arith
  | inr x ↦
      let left : counts_of device rows ≡ [] = ground arith in
      let rest = insert_row-own device r rows e left in ground arith
]

sort_rows-counts :
    (device : String) (rows : List FdbRow)
    → length (counts_of device rows) ≤ 1
    → counts_of device (sort_rows rows) ≡ counts_of device rows
unfolding sort_rows
sort_rows-counts device [] h = refl
sort_rows-counts device (r ∷ rows) h = elim (Bool-cases (r.device == device)) [
  | inl e ↦
      let left : counts_of device rows ≡ [] = ground arith in
      let rest = sort_rows-counts device rows (rw left (ground arith)) in
      let own = insert_row-own device r (sort_rows rows) e (rest ∙ left) in ground arith
  | inr e ↦
      let fits : length (counts_of device rows) ≤ 1 = ground arith in
      let rest = sort_rows-counts device rows fits in
      let other = insert_row-other device r (sort_rows rows) e in ground arith
]

-- The count of a device in the dictionary.
abbrev count_at : String → Dict String FdbRow → Option ℕ
count_at device best = elim (get device best) [ none ↦ none | some b ↦ some (mac_count b) ]

abbrev least_of : Option ℕ → Option ℕ → Option ℕ
least_of none o = o
least_of (some n) o = some (smaller n o)

best_step-count :
    (device : String) (r : FdbRow) (best : Dict String FdbRow)
    → count_at device (best_step r best) ≡ (
        if r.device == device
        then some (smaller (mac_count r) (count_at device best))
        else count_at device best)
unfolding best_step
best_step-count device r best =
    let there = get-put r.device device r best in
    elim (Bool-cases (r.device == device)) [
      | inl e ↦
          let same = (==_iff r.device device).0 e in
          let key = ap (λ k. get k best) same in
          elim (Option-cases (get device best)) [ inl n ↦ ground arith | inr (b, n) ↦ ground arith ]
      | inr e ↦ ground arith
    ]

best_of-count :
    (device : String) (rows : List FdbRow) (best : Dict String FdbRow)
    → count_at device (best_of rows best) ≡ least_of (count_at device best) (least device rows)
unfolding best_of
best_of-count device [] best = none_more (count_at device best)
  where
    none_more : (o : Option ℕ) → o ≡ least_of o none
    none_more none = refl
    none_more (some n) = refl
best_of-count device (r ∷ rows) best =
    best_of-count device rows (best_step r best)
    ∙ ap (λ o. least_of o (least device rows)) (best_step-count device r best)
    ∙ one_more (r.device == device) (mac_count r) (count_at device best) (least device rows)
  where
    one_more :
        (b : Bool) (n : ℕ) (o l : Option ℕ)
        → least_of (if b then some (smaller n o) else o) l
          ≡ least_of o (if b then some (smaller n l) else l)
    one_more false n o l = refl
    one_more true n none l = refl
    one_more true n (some m) none = ground arith
    one_more true n (some m) (some k) = ground arith

-- The rows of the dictionary stand under their devices, each once.
record IsKeyed (best : Dict String FdbRow) : Type 0 where
  unique : IsUnique best
  keyed : AllEntries (λ k r. r.device ≡ k) best

best_step-IsKeyed :
    (r : FdbRow) (best : Dict String FdbRow) → IsKeyed best → IsKeyed (best_step r best)
best_step-IsKeyed r best h = elim (best_step-cases r best) [
  | inl e ↦ rw e (record {
    unique = put-IsUnique r.device r best h.unique;
    keyed = put-AllEntries (λ k x. x.device ≡ k) r.device r best refl h.keyed;
  })
  | inr e ↦ subst IsKeyed (sym e) h
]

best_of-IsKeyed :
    (rows : List FdbRow) (best : Dict String FdbRow) → IsKeyed best → IsKeyed (best_of rows best)
unfolding best_of
best_of-IsKeyed [] best h = h
best_of-IsKeyed (r ∷ rows) best h =
    best_of-IsKeyed rows (best_step r best) (best_step-IsKeyed r best h)

values-counts :
    (device : String) (best : Dict String FdbRow)
    → IsUnique best
    → AllEntries (λ k r. r.device ≡ k) best
    → counts_of device (values best) ≡ as_list (count_at device best)
unfolding get
values-counts device [] u k = refl
values-counts device (e ∷ best) u k =
    let rest = values-counts device best u.1 k.1 in
    let own : e.1.device ≡ e.0 = k.0 in
    let fresh : get e.0 best ≡ none = u.0 in
    elim (Bool-cases (e.0 == device)) [
      | inl x ↦
          let same = (==_iff e.0 device).0 x in
          let gone : get device best ≡ none = ap (λ j. get j best) (sym same) ∙ fresh in
          ground arith
      | inr x ↦ ground arith
    ]

-- The search for edge ports, for a query that reads as an address: of each device that has rows for the
-- address it returns exactly one, with the least count of its rows, and no row of another device; every
-- row it returns is a row of the store as it stands; and they come in the order of their counts.
pub edge_ports :
    (search_fdb : Text → List FdbRow) (query canon : Text) (device : String)
    → normalize_mac query ≡ some canon
    → let found = search search_fdb true query in
      (counts_of device found ≡ as_list (least device (search_fdb canon)))
      × All (λ r. Mem r (search_fdb canon)) found
      × IsSorted found
unfolding search get
edge_ports search_fdb query canon device e =
    let rows = search_fdb canon in
    let best = best_of rows [] in
    let empty : IsKeyed [] = record { unique = tt; keyed = tt } in
    let keyed = best_of-IsKeyed rows [] empty in
    let in_dict = values-counts device best keyed.unique keyed.keyed in
    let counted = in_dict ∙ ap as_list (best_of-count device rows []) in
    let fits : length (counts_of device (values best)) ≤ 1 =
      rw counted (one_at_most (least device rows)) in
    let found : search search_fdb true query ≡ sort_rows (values best) = ground arith in
    (
      ap (counts_of device) found ∙ sort_rows-counts device (values best) fits ∙ counted,
      subst (All (λ r. Mem r rows)) (sym found) (
          sort_rows-All (λ r. Mem r rows) (values best)
            (values-All (λ r. Mem r rows) best
              (best_of-All (λ r. Mem r rows) rows [] (every_row rows) tt))),
      subst IsSorted (sym found) (sort_rows-IsSorted (values best)),
    )
  where
    one_at_most : (o : Option ℕ) → length (as_list o) ≤ 1
    one_at_most none = ground arith
    one_at_most (some n) = ground arith
