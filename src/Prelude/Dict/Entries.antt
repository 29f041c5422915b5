-- ===== src/Prelude/Dict/Entries.antt =====
-- Predicates on the entries of a dictionary, and what keeps them; dictionaries built at the end.
use mathlib.Core.Path.{◌≡◌, refl}
use mathlib.Core.Logic.{◌≢◌}
use mathlib.Core.Option.{none, some}
use mathlib.Core.List.{[], ◌∷◌, ◌++◌, map}
use native.Mathlib.Omega.{arith}
use aruba_network_agent.Prelude.Equality.{Eq, ==_iff, ==_self}
use aruba_network_agent.Prelude.Dict.{Dict, get, put, remove, values, IsUnique}

module _ {ℓ κ μ} {K : Type ℓ} {V : Type κ} where
  abbrev pub AllEntries : (K → V → Type μ) → Dict K V → Type μ
  AllEntries P [] = Unit
  AllEntries P (e ∷ d) = P e.0 e.1 × AllEntries P d

module _ {ℓ κ μ} {K : Type ℓ} {V : Type κ} ⦃q : Eq K⦄ (P : K → V → Type μ) where
  pub get-AllEntries : (k : K) (v : V) (d : Dict K V) → AllEntries P d → get k d ≡ some v → P k v
  unfolding get
  get-AllEntries k v [] h e = cc
  get-AllEntries k v (c ∷ d) h e = ground (arith, get-AllEntries k v d h.1, ==_iff c.0 k)

  pub put-AllEntries :
      (k : K) (v : V) (d : Dict K V) → P k v → AllEntries P d → AllEntries P (put k v d)
  unfolding put
  put-AllEntries k v [] p h = (p, tt)
  put-AllEntries k v (c ∷ d) p h = ground (arith, put-AllEntries k v d p h.1)

  -- What holds of every answer of a dictionary with unique keys holds of its entries.
  pub answers-AllEntries :
      (d : Dict K V) → IsUnique d → ((k : K) (v : V) → get k d ≡ some v → P k v) → AllEntries P d
  unfolding get
  answers-AllEntries [] u h = tt
  answers-AllEntries (e ∷ d) u h = (
    h e.0 e.1 (ground (arith, ==_self e.0)),
    answers-AllEntries d u.1 (λ k v g. let fresh = u.0 in h k v (ground (arith, ==_iff e.0 k))),
  )

  pub remove-AllEntries : (k : K) (d : Dict K V) → AllEntries P d → AllEntries P (remove k d)
  unfolding remove
  remove-AllEntries k [] h = tt
  remove-AllEntries k (c ∷ d) h = ground (arith, remove-AllEntries k d h.1)

module _ {ℓ κ} {K : Type ℓ} {V : Type κ} ⦃q : Eq K⦄ where
  pub put_fresh : (k : K) (v : V) (d : Dict K V) → get k d ≡ none → put k v d ≡ d ++ (k, v) ∷ []
  unfolding get put
  put_fresh k v [] h = refl
  put_fresh k v (c ∷ d) h = ground (arith, put_fresh k v d)

  pub get-append_ne_none : (k : K) (v : V) (d r : Dict K V) → get k (d ++ (k, v) ∷ r) ≢ none
  unfolding get
  get-append_ne_none k v [] r = ground (arith, ==_self k)
  get-append_ne_none k v (c ∷ d) r = ground (arith, get-append_ne_none k v d r)

  -- In a dictionary with no key twice, what stands before an entry does not have its key.
  pub get-none_of_IsUnique :
      (k : K) (v : V) (d r : Dict K V) → IsUnique (d ++ (k, v) ∷ r) → get k d ≡ none
  unfolding get
  get-none_of_IsUnique k v [] r h = refl
  get-none_of_IsUnique k v (c ∷ d) r h =
      ground (arith, get-none_of_IsUnique k v d r h.1, ==_iff c.0 k, get-append_ne_none k v d r)

  -- Writing a value that a projection does not tell from the old one leaves the projections.
  pub map-values-put {μ} :
      {W : Type μ} (f : V → W) (k : K) (v w : V) (d : Dict K V)
      → get k d ≡ some v
      → f w ≡ f v
      → map f (values (put k w d)) ≡ map f (values d)
  unfolding get put
  map-values-put f k v w [] h e = cc
  map-values-put f k v w (c ∷ d) h e = ground (arith, map-values-put f k v w d)
