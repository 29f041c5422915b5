-- ===== src/Fdb/Rows.antt =====
-- `search` of l2_discovery.py drops and orders rows, and makes none up.
use mathlib.Core.List.{Mem, mem-cons_of_mem, mem-cons_self}
use aruba_network_agent.Prelude.{
  String, ◌≡◌, ◌⊎◌, List, [], ◌∷◌, string_Eq, All, arith, Option-cases, inl, inr,
}
use aruba_network_agent.Prelude.Dict.{Dict, get, put, values}
use aruba_network_agent.Prelude.Dict.Entries.{AllEntries, put-AllEntries}
use aruba_network_agent.Fdb.{FdbRow, best_step, best_of, insert_row, sort_rows}

pub best_step-cases :
    (r : FdbRow) (best : Dict String FdbRow)
    → (best_step r best ≡ put r.device r best) ⊎ (best_step r best ≡ best)
unfolding best_step
best_step-cases r best = elim (Option-cases (get r.device best)) [
  | inl n ↦ ground arith
  | inr (b, n) ↦ ground arith
]

-- What holds of every row of the store holds of every row that is found.
module _ (P : FdbRow → Type 0) where
  pub best_of-All :
      (rows : List FdbRow) (best : Dict String FdbRow)
      → All P rows
      → AllEntries (λ k r. P r) best
      → AllEntries (λ k r. P r) (best_of rows best)
  unfolding best_of
  best_of-All [] best h k = k
  best_of-All (r ∷ rows) best h k =
      best_of-All rows (best_step r best) h.1 (elim (best_step-cases r best) [
        | inl e ↦ rw e (put-AllEntries (λ k r. P r) r.device r best h.0 k)
        | inr e ↦ rw e k
      ])

  pub values-All : (d : Dict String FdbRow) → AllEntries (λ k r. P r) d → All P (values d)
  values-All [] h = tt
  values-All (e ∷ d) h = (h.0, values-All d h.1)

  insert_row-All : (r : FdbRow) (rows : List FdbRow) → P r → All P rows → All P (insert_row r rows)
  unfolding insert_row
  insert_row-All r [] a b = (a, tt)
  insert_row-All r (s ∷ rows) a b = let rest = insert_row-All r rows a b.1 in ground arith

  pub sort_rows-All : (rows : List FdbRow) → All P rows → All P (sort_rows rows)
  unfolding sort_rows
  sort_rows-All [] h = tt
  sort_rows-All (r ∷ rows) h = insert_row-All r (sort_rows rows) h.0 (sort_rows-All rows h.1)

pub every_row : (rows : List FdbRow) → All (λ r. Mem r rows) rows
every_row rows = go rows (λ r m. m)
  where
    go :
        (rest : List FdbRow) → ((r : FdbRow) → Mem r rest → Mem r rows) → All (λ r. Mem r rows) rest
    go [] up = tt
    go (r ∷ rest) up = (up r mem-cons_self, go rest (λ s m. up s (mem-cons_of_mem r m)))
