-- ===== src/Snmp/Page.antt =====
-- One page of `bulk_walk` of snmp.py, with rows of the column and then others.
use mathlib.Core.List.{append-nil, append_assoc}
use aruba_network_agent.Prelude.{
  ℕ, zero, suc, String, ◌≡◌, refl, sym, ap, ◌∙◌, subst, Bool, true, false, ◌||◌, none, List, [],
  ◌∷◌, ◌++◌, length, length-append, All, arith,
}
use aruba_network_agent.Prelude.Dict.{Dict, get, IsUnique}
use aruba_network_agent.Prelude.Dict.Entries.{put_fresh, get-none_of_IsUnique}
use aruba_network_agent.Prelude.Text.{text_Eq}
use aruba_network_agent.Snmp.{
  Oid, Pair, bound, Walk, take_pair, take_pairs, take_pdus, in_subtree, suffix_of,
}

abbrev pub take {ℓ} : {A : Type ℓ} → ℕ → List A → List A
take zero xs = []
take (suc n) [] = []
take (suc n) (x ∷ xs) = x ∷ take n xs

abbrev pub skip {ℓ} : {A : Type ℓ} → ℕ → List A → List A
skip zero xs = xs
skip (suc n) [] = []
skip (suc n) (x ∷ xs) = skip n xs

pub take-skip {ℓ} : {A : Type ℓ} (n : ℕ) (xs : List A) → take n xs ++ skip n xs ≡ xs
take-skip zero xs = refl
take-skip (suc n) [] = refl
take-skip (suc n) (x ∷ xs) = ap (λ ys. x ∷ ys) (take-skip n xs)

-- The OID that the request after some variables starts from.
abbrev pub last_oid : Oid → List Pair → Oid
last_oid oid [] = oid
last_oid oid (p ∷ ps) = last_oid p.0 ps

-- The rows of a column by their suffixes.
abbrev pub suffixes : Oid → List Pair → Dict Oid String
suffixes base [] = []
suffixes base (p ∷ ps) = (suffix_of base p.0, p.1) ∷ suffixes base ps

suffixes-append :
    (base : Oid) (xs ys : List Pair)
    → suffixes base (xs ++ ys) ≡ suffixes base xs ++ suffixes base ys
suffixes-append base [] ys = refl
suffixes-append base (x ∷ xs) ys =
    ap (λ zs. (suffix_of base x.0, x.1) ∷ zs) (suffixes-append base xs ys)

pub last_oid-append :
    (oid : Oid) (xs ys : List Pair) → last_oid oid (xs ++ ys) ≡ last_oid (last_oid oid xs) ys
last_oid-append oid [] ys = refl
last_oid-append oid (x ∷ xs) ys = last_oid-append x.0 xs ys

-- The loop has read some rows of the column.
pub record HasRead (base : Oid) (before : List Pair) (w : Walk) : Type 0 where
  pub rows : w.rows ≡ suffixes base before
  pub start : w.start ≡ last_oid base before
  pub seen : w.seen ≡ length before

take_pairs-left :
    (base : Oid) (ps : List Pair) (w : Walk)
    → All (λ p. in_subtree base p.0 ≡ false) ps
    → let w' = take_pairs base ps w in
      (w'.rows ≡ w.rows) × (w'.start ≡ w.start) × (w'.seen ≡ w.seen) × (w'.advanced ≡ w.advanced)
unfolding take_pairs take_pair
take_pairs-left base [] w h = (refl, refl, refl, refl)
take_pairs-left base (p ∷ ps) w h =
    let first = h.0 in let rest = take_pairs-left base ps (take_pair base p w) h.1 in ground arith

All-take : (P : Pair → Type 0) (n : ℕ) (ps : List Pair) → All P ps → All P (take n ps)
All-take P zero ps h = tt
All-take P (suc n) [] h = tt
All-take P (suc n) (p ∷ ps) h = (h.0, All-take P n ps h.1)

abbrev pub is_some_row : List Pair → Bool
is_some_row [] = false
is_some_row (p ∷ ps) = true

-- One row more
take_pair-HasRead :
    (base : Oid) (before after : List Pair) (p : Pair) (w : Walk)
    → HasRead base before w
    → in_subtree base p.0 ≡ true
    → IsUnique (suffixes base (before ++ p ∷ after))
    → HasRead base (before ++ p ∷ []) (take_pair base p w)
unfolding take_pair
take_pair-HasRead base before after p w h inside unique =
    let e = suffixes-append base before (p ∷ after) in
    let apart = subst IsUnique e unique in
    let free : get (suffix_of base p.0) w.rows ≡ none = rw h.rows (
      get-none_of_IsUnique (suffix_of base p.0) p.1 (suffixes base before) (suffixes base after)
        apart) in
    let put_there = put_fresh (suffix_of base p.0) p.1 w.rows free in
    let grown : w.rows ++ (suffix_of base p.0, p.1) ∷ [] ≡ suffixes base (before ++ p ∷ []) =
      ap (λ d. d ++ (suffix_of base p.0, p.1) ∷ []) h.rows
      ∙ sym (suffixes-append base before (p ∷ [])) in
    rw inside (record {
      rows = put_there ∙ grown;
      start = sym (last_oid-append base before (p ∷ []));
      seen = omega (arith, h.seen, length-append before (p ∷ []));
    })

-- A page: what it has of the column is read, and it advances if there is any.
pub take_pairs-HasRead :
    (n : ℕ) (base : Oid) (before after rest : List Pair) (w : Walk)
    → HasRead base before w
    → IsUnique (suffixes base (before ++ after))
    → All (λ p. in_subtree base p.0 ≡ true) after
    → All (λ p. in_subtree base p.0 ≡ false) rest
    → let w' = take_pairs base (take n (after ++ rest)) w in
      HasRead base (before ++ take n after) w'
      × (w'.advanced ≡ (w.advanced || is_some_row (take n after)))
unfolding take_pairs
take_pairs-HasRead zero base before after rest w h unique inside outside =
    (rw (append-nil before) h, ground arith)
take_pairs-HasRead (suc n) base before [] rest w h unique inside outside =
    let left =
      take_pairs-left base (take (suc n) rest) w
        (All-take (λ p. in_subtree base p.0 ≡ false) (suc n) rest outside) in
    (
      rw (append-nil before)
          (record { rows = left.0 ∙ h.rows; start = left.1 ∙ h.start; seen = left.2 ∙ h.seen }),
      ground arith,
    )
take_pairs-HasRead (suc n) base before (p ∷ after) rest w h unique inside outside =
    let one = take_pair-HasRead base before after p w h inside.0 unique in
    let split = append_assoc before (p ∷ []) after in
    let more =
      take_pairs-HasRead n base (before ++ p ∷ []) after rest (take_pair base p w) one
        (subst (λ ps. IsUnique (suffixes base ps)) (sym split) unique) inside.1 outside in
    let first = inside.0 in
    (
      subst (λ ps. HasRead base ps (take_pairs base (take n (after ++ rest)) (take_pair base p w)))
          (append_assoc before (p ∷ []) (take n after)) more.0,
      unfold take_pair in ground arith,
    )

-- A page that leaves the column has read all of it.
pub take_pairs-stop :
    (n : ℕ) (base : Oid) (after rest : List Pair) (w : Walk)
    → All (λ p. in_subtree base p.0 ≡ true) after
    → w.stop ≡ false
    → (take_pairs base (take n (after ++ rest)) w).stop ≡ true
    → skip n after ≡ []
unfolding take_pairs take_pair
take_pairs-stop zero base after rest w inside going stopped = ground arith
take_pairs-stop (suc n) base [] rest w inside going stopped = refl
take_pairs-stop (suc n) base (p ∷ after) rest w inside going stopped =
    let first = inside.0 in
    take_pairs-stop n base after rest (take_pair base p w) inside.1
      (unfold take_pair in ground arith) stopped

pub All-skip : (P : Pair → Type 0) (n : ℕ) (ps : List Pair) → All P ps → All P (skip n ps)
All-skip P zero ps h = h
All-skip P (suc n) [] h = tt
All-skip P (suc n) (p ∷ ps) h = All-skip P n ps h.1

pub take_pdus-bound :
    (base : Oid) (ps : List Pair) (w : Walk)
    → take_pdus base (bound ps ∷ []) w ≡ take_pairs base ps w
unfolding take_pdus
take_pdus-bound base ps w = ground arith
