-- ===== src/Prelude/Dict.antt =====
-- A Python dict in insertion order, over keys with decidable equality.
pub mod Entries
use mathlib.Core.Path.{◌≡◌, refl}
use mathlib.Core.Logic.{◌≢◌}
use mathlib.Core.Bool.{Bool, true, false, ◌||◌}
use mathlib.Core.Option.{Option, none, some}
use mathlib.Core.List.{List, [], ◌∷◌}
use native.Mathlib.Omega.{arith}
use aruba_network_agent.Prelude.Tests.{if◌then◌else◌}
use aruba_network_agent.Prelude.Equality.{Eq, ◌==◌, ==_iff, ==_self}

abbrev pub Dict {ℓ κ} : Type ℓ → Type κ → Type (ℓ ⊔ κ)
Dict K V = List (K × V)

module _ {ℓ κ} {K : Type ℓ} {V : Type κ} where
  -- `d.values()` and `d.keys()`
  abbrev pub values : Dict K V → List V
  values [] = []
  values (e ∷ d) = e.1 ∷ values d

  abbrev pub keys : Dict K V → List K
  keys [] = []
  keys (e ∷ d) = e.0 ∷ keys d

module _ {ℓ κ} {K : Type ℓ} {V : Type κ} ⦃q : Eq K⦄ where
  -- `d.get(k)`
  unfoldable pub get : K → Dict K V → Option V
  get k [] = none
  get k (e ∷ d) = if e.0 == k then some e.1 else get k d

  -- `k in d`
  unfoldable pub contains : K → Dict K V → Bool
  unfolding get
  contains k d = elim (get k d) [ none ↦ false | some _ ↦ true ]

  -- `d[k] = v`: in place where the key is there, at the end where it is not
  unfoldable pub put : K → V → Dict K V → Dict K V
  put k v [] = (k, v) ∷ []
  put k v (e ∷ d) = if e.0 == k then (k, v) ∷ d else e ∷ put k v d

  -- `del d[k]`, `d.pop(k, None)`
  unfoldable pub remove : K → Dict K V → Dict K V
  remove k [] = []
  remove k (e ∷ d) = let rest = remove k d in if e.0 == k then rest else e ∷ rest

  pub get-put :
      (k j : K) (v : V) (d : Dict K V) → get j (put k v d) ≡ (if k == j then some v else get j d)
  unfolding get put
  get-put k j v [] = refl
  get-put k j v (e ∷ d) = ground (arith, get-put k j v d, ==_iff e.0 k, ==_iff e.0 j, ==_iff k j)

  pub get-remove :
      (k j : K) (d : Dict K V) → get j (remove k d) ≡ (if k == j then none else get j d)
  unfolding get remove
  get-remove k j [] = ground arith
  get-remove k j (e ∷ d) = ground (arith, get-remove k j d, ==_iff e.0 k, ==_iff e.0 j, ==_iff k j)

  pub get-put_self : (k : K) (v : V) (d : Dict K V) → get k (put k v d) ≡ some v
  get-put_self k v d = ground (arith, get-put k k v d, ==_self k)

  pub get-put_ne : (k j : K) (v : V) (d : Dict K V) → k ≢ j → get j (put k v d) ≡ get j d
  get-put_ne k j v d h = ground (arith, get-put k j v d, ==_iff k j)

  pub contains-put :
      (k j : K) (v : V) (d : Dict K V) → contains j (put k v d) ≡ (k == j || contains j d)
  unfolding contains
  contains-put k j v d = ground (arith, get-put k j v d)

  pub contains-some : (k : K) (v : V) (d : Dict K V) → get k d ≡ some v → contains k d ≡ true
  unfolding contains
  contains-some k v d h = ground arith

  -- No key is listed twice.
  abbrev pub IsUnique : Dict K V → Type κ
  IsUnique [] = Unit
  IsUnique (e ∷ d) = (get e.0 d ≡ none) × IsUnique d

  pub put-IsUnique : (k : K) (v : V) (d : Dict K V) → IsUnique d → IsUnique (put k v d)
  unfolding get put
  put-IsUnique k v [] h = (refl, tt)
  put-IsUnique k v (e ∷ d) h =
      ground (arith, put-IsUnique k v d h.1, get-put k e.0 v d, ==_iff e.0 k, ==_iff k e.0)

  pub remove-IsUnique : (k : K) (d : Dict K V) → IsUnique d → IsUnique (remove k d)
  unfolding remove
  remove-IsUnique k [] h = tt
  remove-IsUnique k (e ∷ d) h = ground (arith, remove-IsUnique k d h.1, get-remove k e.0 d)

pub ruleset dict_laws = (get-put, get-remove)
