-- ===== src/Snmp/Tests.antt =====
-- The theorems on snmp.py at a device with a column of three rows, in pages of one and two.
use aruba_network_agent.Prelude.{
  ℕ, suc, nat_eq, ◌*◌, String, ◌≡◌, refl, true, some, List, [], ◌∷◌, ◌++◌, ◌==◌, length, arith,
  if◌then◌else◌,
}
use aruba_network_agent.Prelude.Dict.{get, put, IsUnique}
use aruba_network_agent.Prelude.Text.{text_Eq, codes, same_text, starts_with, drop}
use aruba_network_agent.Snmp.{
  Oid, Pair, bound, SnmpPeer, in_subtree, suffix_of, bulk_walk, returned, walk_columns, walk_column,
  take_pdus, take_pairs, take_pair,
}
use aruba_network_agent.Snmp.Ends.{returns_within, bulk_walk_ends}
use aruba_network_agent.Snmp.Page.{take, suffixes}
use aruba_network_agent.Snmp.Complete.{endings, Serves, bulk_walk_complete}

abbrev base : Oid
base = codes "1.2"

abbrev rows : List Pair
rows = (codes "1.2.1", "a") ∷ (codes "1.2.2", "b") ∷ (codes "1.2.3", "c") ∷ []

abbrev next : Pair
next = (codes "1.3.1", "d")

abbrev no_more : String
no_more = "No more variables left in this MIB View"

-- What follows an OID in the table.
abbrev following : Oid → List Pair → List Pair
following oid [] = []
following oid (p ∷ ps) = if p.0 == oid then ps else following oid ps

-- Pages of two, the first of one
abbrev size : ℕ → ℕ
size asked = if nat_eq asked 0 then 0 else 1

abbrev device : SnmpPeer
device asked oid =
    let table = rows ++ next ∷ [] in
    let after = if oid == base then table else following oid table in
    let n = suc (size asked) in
    some (bound (take n (after ++ endings n (codes "1.3.1") no_more)) ∷ [])

device-Serves : Serves device base size no_more (rows ++ next ∷ [])
unfolding same_text
device-Serves asked [] after e = ground arith
device-Serves asked (p ∷ []) after e = ground arith
device-Serves asked (p ∷ q ∷ []) after e = ground arith
device-Serves asked (p ∷ q ∷ r ∷ []) after e = ground arith
device-Serves asked (p ∷ q ∷ r ∷ s ∷ []) after e = ground arith
device-Serves asked (p ∷ q ∷ r ∷ s ∷ t ∷ before) after e = ground arith

rows-IsUnique : IsUnique (suffixes base rows)
unfolding get suffix_of same_text drop
rows-IsUnique = (refl, (refl, (refl, tt)))

bulk_walk_complete_example :
    (last_error : String) × (asked : ℕ) × (bulk_walk 100 device (base ∷ []) ""
      ≡ returned (some ((base, suffixes base rows) ∷ [])) last_error asked)
bulk_walk_complete_example =
    bulk_walk_complete 100 size device base rows next [] no_more "" device-Serves rows-IsUnique
      (unfold in_subtree same_text starts_with in (refl, (refl, (refl, tt))))
      (unfold in_subtree same_text starts_with in (refl, tt)) (ground arith)

-- A device that repeats one variable.
abbrev stuck : SnmpPeer
stuck asked oid = some (bound ((codes "1.2.1", "a") ∷ []) ∷ [])

bulk_walk_ends_example :
    returns_within (length (base ∷ []) * 7) (bulk_walk 7 stuck (base ∷ []) "") ≡ true
bulk_walk_ends_example = bulk_walk_ends 7 stuck (base ∷ []) ""

-- A device whose view ends with the column: the value of the last row is lost.
abbrev ending : SnmpPeer
ending asked oid =
    let after = if oid == base then rows else following oid rows in
    some (bound (take 2 (after ++ endings 2 (codes "1.2.3") no_more)) ∷ [])

last_row_is_lost :
    bulk_walk 5 ending (base ∷ []) ""
    ≡ returned
        (some ((base, (codes "1", "a") ∷ (codes "2", "b") ∷ (codes "3", no_more) ∷ []) ∷ []))
        ""
        3
unfolding bulk_walk walk_columns walk_column take_pdus take_pairs take_pair in_subtree suffix_of put
    get same_text starts_with drop
last_row_is_lost = refl
