-- ===== src/Snmp/Complete.antt =====
-- `bulk_walk` of snmp.py against a device that answers GETBULK in pages of its table.
use mathlib.Core.List.{append_assoc}
use aruba_network_agent.Prelude.{
  ℕ, zero, suc, ◌+◌, ◌≤◌, String, ◌≡◌, refl, sym, ap, ◌∙◌, true, false, some, List, [], ◌∷◌, ◌++◌,
  length, All, arith, ==_self,
}
use aruba_network_agent.Prelude.Dict.{get, put, IsUnique}
use aruba_network_agent.Prelude.Text.{text_Eq}
use aruba_network_agent.Snmp.{
  Oid, Pair, bound, SnmpPeer, in_subtree, first_page, Columns, column, returned, bulk_walk,
}
use aruba_network_agent.Snmp.Page.{take, suffixes, last_oid, last_oid-append, HasRead}
use aruba_network_agent.Snmp.Column.{Answers, walk_column-rows, walk_columns-one}

-- What a device puts for a variable past the last of its view, as RFC 3416 says: the OID of the last,
-- with the value endOfMibView, which pysnmp prints as some text.
abbrev pub endings : ℕ → Oid → String → List Pair
endings zero oid text = []
endings (suc n) oid text = (oid, text) ∷ endings n oid text

-- A device whose view from the column on is a list of variables: a request from any of them, or from
-- the column itself, gets a page of those that follow, which is filled up past the last. Each request
-- may have its own size of page.
abbrev pub Serves : SnmpPeer → Oid → (ℕ → ℕ) → String → List Pair → Type 0
Serves peer base page text table =
    (asked : ℕ) (before after : List Pair)
    → before ++ after ≡ table
    → let size = suc (page asked) in
      peer asked (last_oid base before)
      ≡ some (bound (take size (after ++ endings size (last_oid base table) text)) ∷ [])

endings-outside :
    (base oid : Oid) (text : String) (n : ℕ)
    → in_subtree base oid ≡ false
    → All (λ p. in_subtree base p.0 ≡ false) (endings n oid text)
endings-outside base oid text zero h = tt
endings-outside base oid text (suc n) h = (h, endings-outside base oid text n h)

last_oid-outside :
    (base : Oid) (p : Pair) (ps : List Pair)
    → All (λ q. in_subtree base q.0 ≡ false) (p ∷ ps)
    → in_subtree base (last_oid p.0 ps) ≡ false
last_oid-outside base p [] h = h.0
last_oid-outside base p (q ∷ ps) h = last_oid-outside base q ps h.1

All-append : (P : Pair → Type 0) (xs ys : List Pair) → All P xs → All P ys → All P (xs ++ ys)
All-append P [] ys h k = k
All-append P (x ∷ xs) ys h k = (h.0, All-append P xs ys h.1 k)

-- What stands behind a column that another variable follows.
module _ (page : ℕ → ℕ) (base : Oid) (text : String) (rows : List Pair) (next : Pair)
    (rest : List Pair) where
  abbrev behind : ℕ → List Pair
  behind asked =
      (next ∷ rest) ++ endings (suc (page asked)) (last_oid base (rows ++ next ∷ rest)) text

  behind-outside :
      All (λ p. in_subtree base p.0 ≡ false) (next ∷ rest)
      → (asked : ℕ) → All (λ p. in_subtree base p.0 ≡ false) (behind asked)
  behind-outside outside asked =
      All-append (λ p. in_subtree base p.0 ≡ false) (next ∷ rest) _ outside
        (endings-outside base _ text (suc (page asked)) (
          ap (in_subtree base) (last_oid-append base rows (next ∷ rest))
          ∙ last_oid-outside base next rest outside))

  Serves-Answers :
      (peer : SnmpPeer)
      → Serves peer base page text (rows ++ next ∷ rest)
      → Answers peer base page rows behind
  Serves-Answers peer serves asked before after whole =
      serves asked before (after ++ next ∷ rest)
        (sym (append_assoc before after (next ∷ rest)) ∙ ap (λ qs. qs ++ next ∷ rest) whole)
      ∙ ap (λ ps. some (bound (take (suc (page asked)) ps) ∷ []))
          (append_assoc after (next ∷ rest)
            (endings (suc (page asked)) (last_oid base (rows ++ next ∷ rest)) text))

-- A walk over one column of a device that answers each request with the variables that follow, in pages
-- of any sizes but zero that are filled up with endOfMibView past the last, returns exactly the rows of
-- the column under their suffixes, in the order of the device, if they are not more than `max_rows`, no
-- two have the same suffix, and the column is followed by another variable in the view of the device.
pub bulk_walk_complete :
    (max_rows : ℕ) (page : ℕ → ℕ) (peer : SnmpPeer) (base : Oid) (rows : List Pair) (next : Pair)
    (rest : List Pair) (text e : String)
    → Serves peer base page text (rows ++ next ∷ rest)
    → IsUnique (suffixes base rows)
    → All (λ p. in_subtree base p.0 ≡ true) rows
    → All (λ p. in_subtree base p.0 ≡ false) (next ∷ rest)
    → length rows ≤ max_rows
    → (last_error : String) × (asked : ℕ) × (bulk_walk max_rows peer (base ∷ []) e
        ≡ returned (some ((base, suffixes base rows) ∷ [])) last_error asked)
unfolding bulk_walk put get
bulk_walk_complete max_rows page peer base rows next rest text e serves unique inside outside fits =
    let results : Columns = (base, []) ∷ [] in
    let first = first_page base results e 0 in
    let same = ==_self base in
    let empty : column base results ≡ [] = ground arith in
    let nothing : HasRead base [] first = record { rows = empty; start = refl; seen = refl } in
    let answers = Serves-Answers page base text rows next rest peer serves in
    let left = behind-outside page base text rows next rest outside in
    let r =
      walk_column-rows (max_rows + 1) max_rows page peer base rows
        (behind page base text rows next rest) [] rows first answers unique left fits refl inside
        nothing (omega arith) in
    let one = walk_columns-one max_rows peer base results e 0 r.0 r.1 in
    let written : put base r.0.rows results ≡ (base, suffixes base rows) ∷ [] =
      ap (λ d. put base d results) r.2 ∙ ground arith in
    (r.0.last_error, r.0.asked, one ∙ ap (λ d. returned (some d) r.0.last_error r.0.asked) written)
