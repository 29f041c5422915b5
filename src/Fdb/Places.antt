-- ===== src/Fdb/Places.antt =====
-- The loop of `assemble_fdb` of fdb.py that counts the addresses of each port.
use aruba_network_agent.Prelude.{
  ℕ, ◌+◌, ◌≡◌, refl, sym, ap, subst, ◌∙◌, Bool, true, false, ◌&&◌, ◌||◌, List, [], ◌∷◌, ◌++◌, ◌==◌,
  ==_iff, pair_Eq, Eq, length, length-append, arith, Bool-cases, inl, inr, if◌then◌else◌,
}
use aruba_network_agent.Prelude.Dict.{Dict, put, get-put}
use aruba_network_agent.Prelude.Text.{text_Eq}
use aruba_network_agent.Fdb.{Text, Learned, among, add_to, Dedupe, macs_of, dedupe_step, dedupe}

-- (mac, ifindex)
abbrev pub Place : Type 0
Place = Text × Text

abbrev pub places : List Learned → List Place
places [] = []
places (l ∷ ls) = l.1 ∷ places ls

-- The number of places on a port.
abbrev pub on_port : Text → List Place → ℕ
on_port index [] = 0
on_port index (p ∷ ps) = (if p.1 == index then 1 else 0) + on_port index ps

-- No place is listed twice.
abbrev pub IsDistinct : List Place → Type 0
IsDistinct [] = Unit
IsDistinct (p ∷ ps) = (among p ps ≡ false) × IsDistinct ps

among-append {ℓ} :
    {A : Type ℓ} ⦃q : Eq A⦄ (x y : A) (ys : List A)
    → among x (ys ++ y ∷ []) ≡ (among x ys || y == x)
unfolding among
among-append x y [] = ground arith
among-append x y (z ∷ ys) = ground (arith, among-append x y ys)

on_port-append :
    (index : Text) (ps : List Place) (p : Place)
    → on_port index (ps ++ p ∷ []) ≡ on_port index ps + (if p.1 == index then 1 else 0)
on_port-append index [] p = omega arith
on_port-append index (x ∷ ps) p = omega (arith, on_port-append index ps p)

IsDistinct-append :
    (ps : List Place) (p : Place) → IsDistinct ps → among p ps ≡ false → IsDistinct (ps ++ p ∷ [])
unfolding among
IsDistinct-append [] p h fresh = (refl, tt)
IsDistinct-append (x ∷ ps) p h fresh =
    let later = IsDistinct-append ps p h.1 in
    let first = h.0 in ground (arith, among-append x p ps, ==_iff x p, ==_iff p x)

places-append : (ls : List Learned) (l : Learned) → places (ls ++ l ∷ []) ≡ places ls ++ l.1 ∷ []
places-append [] l = refl
places-append (x ∷ ls) l = ap (λ ps. x.1 ∷ ps) (places-append ls l)

-- What the loop has counted so far.
pub record IsCounted (d : Dedupe) : Type 0 where
  pub listed : d.seen ≡ places d.deduped
  pub distinct : IsDistinct d.seen
  pub counted : (index : Text) → length (macs_of index d.per_if_macs) ≡ on_port index d.seen
  pub member :
      (mac index : Text) → among (mac, index) d.seen ≡ among mac (macs_of index d.per_if_macs)

macs_of-put :
    (j k : Text) (macs : List Text) (d : Dict Text (List Text))
    → macs_of k (put j macs d) ≡ (if j == k then macs else macs_of k d)
macs_of-put j k macs d = ground (arith, get-put j k macs d)

add_to-fresh {ℓ} :
    {A : Type ℓ} ⦃q : Eq A⦄ (x : A) (ys : List A) → among x ys ≡ false → add_to x ys ≡ ys ++ x ∷ []
unfolding add_to
add_to-fresh x ys h = ground arith

add_to-there {ℓ} :
    {A : Type ℓ} ⦃q : Eq A⦄ (x : A) (ys : List A) → among x ys ≡ true → add_to x ys ≡ ys
unfolding add_to
add_to-there x ys h = ground arith

-- An entry whose place is known changes no list of addresses.
macs_of-known :
    (l : Learned) (d : Dedupe) (k : Text)
    → IsCounted d
    → among l.1 d.seen ≡ true
    → macs_of k (put l.1.1 (add_to l.1.0 (macs_of l.1.1 d.per_if_macs)) d.per_if_macs)
      ≡ macs_of k d.per_if_macs
macs_of-known l d k h known =
    let same =
      add_to-there l.1.0 (macs_of l.1.1 d.per_if_macs) (sym (h.member l.1.0 l.1.1) ∙ known) in
    let there = macs_of-put l.1.1 k (add_to l.1.0 (macs_of l.1.1 d.per_if_macs)) d.per_if_macs in
    elim (Bool-cases (l.1.1 == k)) [
      | inl e ↦
          let key = (==_iff l.1.1 k).0 e in
          there ∙ rw e (same ∙ ap (λ j. macs_of j d.per_if_macs) key)
      | inr e ↦ there ∙ ground arith
    ]

-- A new place adds its address to the list of its port.
macs_of-new :
    (l : Learned) (d : Dedupe) (k : Text)
    → IsCounted d
    → among l.1 d.seen ≡ false
    → macs_of k (put l.1.1 (add_to l.1.0 (macs_of l.1.1 d.per_if_macs)) d.per_if_macs)
      ≡ (if l.1.1 == k then macs_of k d.per_if_macs ++ l.1.0 ∷ [] else macs_of k d.per_if_macs)
macs_of-new l d k h new =
    let grown =
      add_to-fresh l.1.0 (macs_of l.1.1 d.per_if_macs) (sym (h.member l.1.0 l.1.1) ∙ new) in
    let there = macs_of-put l.1.1 k (add_to l.1.0 (macs_of l.1.1 d.per_if_macs)) d.per_if_macs in
    elim (Bool-cases (l.1.1 == k)) [
      | inl e ↦
          let key = (==_iff l.1.1 k).0 e in
          there ∙ rw e (grown ∙ ap (λ j. macs_of j d.per_if_macs ++ l.1.0 ∷ []) key)
      | inr e ↦ there ∙ rw e refl
    ]

dedupe_step-known :
    (l : Learned) (d : Dedupe)
    → among l.1 d.seen ≡ true
    → dedupe_step l d ≡ record d {
      per_if_macs = put l.1.1 (add_to l.1.0 (macs_of l.1.1 d.per_if_macs)) d.per_if_macs;
    }
unfolding dedupe_step
dedupe_step-known l d e = ground arith

dedupe_step-new :
    (l : Learned) (d : Dedupe)
    → among l.1 d.seen ≡ false
    → dedupe_step l d ≡ record {
      seen = d.seen ++ l.1 ∷ [];
      per_if_macs = put l.1.1 (add_to l.1.0 (macs_of l.1.1 d.per_if_macs)) d.per_if_macs;
      deduped = d.deduped ++ l ∷ [];
    }
unfolding dedupe_step
dedupe_step-new l d e = let grown = add_to-fresh l.1 d.seen e in ground arith

dedupe_step-IsCounted : (l : Learned) (d : Dedupe) → IsCounted d → IsCounted (dedupe_step l d)
dedupe_step-IsCounted l d h = elim (Bool-cases (among l.1 d.seen)) [
  | inl e ↦ rw (dedupe_step-known l d e) (record {
    listed = h.listed;
    distinct = h.distinct;
    counted = λ k. ap (λ ms. length ms) (macs_of-known l d k h e) ∙ h.counted k;
    member = λ mac k. h.member mac k ∙ ap (among mac) (sym (macs_of-known l d k h e));
  })
  | inr e ↦ rw (dedupe_step-new l d e) (record {
    listed = ap (λ ps. ps ++ l.1 ∷ []) h.listed ∙ sym (places-append d.deduped l);
    distinct = IsDistinct-append d.seen l.1 h.distinct e;
    counted = λ k.
        ap (λ ms. length ms) (macs_of-new l d k h e)
        ∙ one_more (l.1.1 == k) (macs_of k d.per_if_macs) l.1.0 (h.counted k)
        ∙ sym (on_port-append k d.seen l.1);
    member = λ mac k.
        among-append (mac, k) l.1 d.seen
        ∙ one_among (l.1.1 == k) mac l.1.0 (macs_of k d.per_if_macs) (h.member mac k)
        ∙ ap (among mac) (sym (macs_of-new l d k h e));
  })
]
  where
    one_more :
        {n : ℕ} (b : Bool) (ms : List Text) (m : Text)
        → length ms ≡ n
        → length (if b then ms ++ m ∷ [] else ms) ≡ n + (if b then 1 else 0)
    one_more true ms m e = omega (arith, e, length-append ms (m ∷ []))
    one_more false ms m e = omega (arith, e)

    one_among :
        {x : Bool} (b : Bool) (mac m : Text) (ms : List Text)
        → x ≡ among mac ms
        → (x || (m == mac && b)) ≡ among mac (if b then ms ++ m ∷ [] else ms)
    one_among true mac m ms e = let more = among-append mac m ms in ground arith
    one_among false mac m ms e = ground arith

pub dedupe-IsCounted : (raw : List Learned) (d : Dedupe) → IsCounted d → IsCounted (dedupe raw d)
unfolding dedupe
dedupe-IsCounted [] d h = h
dedupe-IsCounted (l ∷ raw) d h =
    dedupe-IsCounted raw (dedupe_step l d) (dedupe_step-IsCounted l d h)

known_among :
    (p x : Place) (ps : List Place) → among x ps ≡ true → among p ps ≡ (among p ps || x == p)
known_among p x ps known = elim (Bool-cases (x == p)) [
  | inl e ↦ let same = subst (λ y. among y ps ≡ true) ((==_iff x p).0 e) known in ground arith
  | inr e ↦ ground arith
]

-- Nothing that was learned is lost, and nothing is made up.
dedupe_step-among :
    (p : Place) (l : Learned) (d : Dedupe)
    → among p (dedupe_step l d).seen ≡ (among p d.seen || l.1 == p)
dedupe_step-among p l d = elim (Bool-cases (among l.1 d.seen)) [
  | inl e ↦ rw (dedupe_step-known l d e) (known_among p l.1 d.seen e)
  | inr e ↦ rw (dedupe_step-new l d e) (among-append p l.1 d.seen)
]

pub dedupe-among :
    (p : Place) (raw : List Learned) (d : Dedupe)
    → among p (dedupe raw d).seen ≡ (among p d.seen || among p (places raw))
unfolding dedupe among
dedupe-among p [] d = ground arith
dedupe-among p (l ∷ raw) d =
    let rest = dedupe-among p raw (dedupe_step l d) in
    let first = dedupe_step-among p l d in ground arith
