-- ===== src/Traps/Spaced.antt =====
-- The times of the emails of trap_receiver.py for a key, and what a prune keeps.
use aruba_network_agent.Prelude.{
  ℕ, ◌+◌, ◌≤◌, ◌≡◌, refl, ap, ◌∙◌, Bool, true, false, Option, none, some, List, [], ◌∷◌, ◌++◌, leb,
  All, ◌==◌, ==_iff, string_Eq, pair_Eq, arith, Bool-cases, inl, inr, if◌then◌else◌,
}
use aruba_network_agent.Prelude.Dict.{Dict, get, IsUnique}
use aruba_network_agent.Prelude.Text.{text_Eq}
use aruba_network_agent.Traps.{TrapKey, Doc, prune}

abbrev pub key_of_doc : Doc → TrapKey
key_of_doc e = (e.switch, e.trap.name)

-- The times of the emails for a key.
abbrev pub times : TrapKey → List Doc → List ℕ
times k [] = []
times k (e ∷ es) = let rest = times k es in if key_of_doc e == k then e.time ∷ rest else rest

-- Each time is at least the window before all later ones.
abbrev pub IsSpaced : ℕ → List ℕ → Type 0
IsSpaced window [] = Unit
IsSpaced window (t ∷ ts) = All (λ u. t + window ≤ u) ts × IsSpaced window ts

pub All-snoc : (P : ℕ → Type 0) (ts : List ℕ) (t : ℕ) → All P ts → P t → All P (ts ++ t ∷ [])
All-snoc P [] t h p = (p, tt)
All-snoc P (u ∷ ts) t h p = (h.0, All-snoc P ts t h.1 p)

pub IsSpaced-snoc :
    (window : ℕ) (ts : List ℕ) (t : ℕ)
    → IsSpaced window ts
    → All (λ u. u + window ≤ t) ts
    → IsSpaced window (ts ++ t ∷ [])
IsSpaced-snoc window [] t h a = (tt, tt)
IsSpaced-snoc window (u ∷ ts) t h a =
    (All-snoc (λ v. u + window ≤ v) ts t h.0 a.0, IsSpaced-snoc window ts t h.1 a.1)

pub All-map : (P Q : ℕ → Type 0) → ((t : ℕ) → P t → Q t) → (ts : List ℕ) → All P ts → All Q ts
All-map P Q f [] h = tt
All-map P Q f (t ∷ ts) h = (f t h.0, All-map P Q f ts h.1)

pub times-append :
    (k : TrapKey) (es : List Doc) (e : Doc)
    → times k (es ++ e ∷ []) ≡ times k es ++ (if key_of_doc e == k then e.time ∷ [] else [])
times-append k [] e = go (key_of_doc e == k)
  where
    go : (b : Bool) → (if b then e.time ∷ [] else []) ≡ [] ++ (if b then e.time ∷ [] else [])
    go true = refl
    go false = refl
times-append k (x ∷ es) e = go (key_of_doc x == k) (times-append k es e)
  where
    go :
        (b : Bool)
        → times k (es ++ e ∷ []) ≡ times k es ++ (if key_of_doc e == k then e.time ∷ [] else [])
        → (if b then x.time ∷ times k (es ++ e ∷ []) else times k (es ++ e ∷ []))
          ≡ (if b then x.time ∷ times k es else times k es)
            ++ (if key_of_doc e == k then e.time ∷ [] else [])
    go true h = ap (λ y. x.time ∷ y) h
    go false h = h

-- An entry is kept while it is in the window.
abbrev kept : ℕ → ℕ → Option ℕ → Option ℕ
kept now window none = none
kept now window (some t) = if leb now (t + window) then some t else none

pub get-prune :
    (k : TrapKey) (now window : ℕ) (d : Dict TrapKey ℕ)
    → IsUnique d
    → get k (prune now window d) ≡ kept now window (get k d)
unfolding get prune
get-prune k now window [] u = refl
get-prune k now window (e ∷ d) u = ground (arith, get-prune k now window d u.1, ==_iff e.0 k)

pub prune-IsUnique :
    (now window : ℕ) (d : Dict TrapKey ℕ) → IsUnique d → IsUnique (prune now window d)
unfolding prune
prune-IsUnique now window [] u = tt
prune-IsUnique now window (e ∷ d) u =
    let rest = prune-IsUnique now window d u.1 in
    elim (Bool-cases (leb now (e.1 + window))) [
      | inl x ↦ rw x (get-prune e.0 now window d u.1 ∙ ap (kept now window) u.0, rest)
      | inr x ↦ rw x rest
    ]
