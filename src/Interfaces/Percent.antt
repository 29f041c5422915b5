-- ===== src/Interfaces/Percent.antt =====
-- A single reading of interface_poll.py: its utilisations are percentages.
use aruba_network_agent.Prelude.{
  ℕ, ◌*◌, String, ◌≡◌, subst, inl, inr, true, false, ◌||◌, Option, none, some, [], ◌∷◌, string_Eq,
  nat_eq, All, arith, Bool-cases, Option-cases,
}
use aruba_network_agent.Prelude.Dict.{Dict, get}
use aruba_network_agent.Interfaces.{
  Floats, IsFloat, ℤ, pos, negsuc, difference, bits_of, is_negative, min, compute_util, PortRow,
  Reading, Snapshot, reading, port_readings,
}

module _ {V : Type 0} (f : Floats V) where
  abbrev pub IsPercent : V → Type 0
  IsPercent u = (f.less_eq f.zero u ≡ true) × (f.less_eq u f.hundred ≡ true)

  abbrev pub IsPercentIf : Option V → Type 0
  IsPercentIf none = Unit
  IsPercentIf (some u) = IsPercent u

  abbrev pub IsInRange : Reading V → Type 0
  IsInRange r = IsPercentIf r.in_util × IsPercentIf r.out_util

  module _ (h : IsFloat f) where
    -- NaN or from zero on
    abbrev IsLow : V → Type 0
    IsLow x = (h.is_nan x || f.less_eq f.zero x) ≡ true

    round2-IsPercent : (x : V) → IsLow x → IsPercent (f.round2 (min f f.hundred x))
    round2-IsPercent x low = elim (Bool-cases (f.less x f.hundred)) [
      | inl e ↦
          let number = h.nan_less x f.hundred in
          let above : f.less_eq f.zero x ≡ true = ground arith in
          rw e (
            subst (λ z. f.less_eq z (f.round2 x) ≡ true) h.round2_zero
                (h.round2_monotone f.zero x above),
            subst (λ z. f.less_eq (f.round2 x) z ≡ true) h.round2_hundred
                (h.round2_monotone x f.hundred (h.less_less_eq x f.hundred e)),
          )
      | inr e ↦ rw (e, h.round2_hundred) (h.zero_hundred, h.hundred_self)
    ]

    product-IsLow : (x : V) → IsLow x → IsLow (f.product x f.hundred)
    product-IsLow x low = elim (Bool-cases (h.is_nan x)) [
      | inl n ↦ let same = h.product_nan x n in ground arith
      | inr n ↦ let above = h.product_nonneg x (ground arith) in ground arith
    ]

    -- The percentage of a number of bits that is not negative
    percentage-IsPercent :
        (delta : ℤ) (capacity : V)
        → is_negative delta ≡ false
        → f.less_eq capacity f.zero ≡ false
        → let q = f.quotient (bits_of delta) capacity in
          IsPercent (f.round2 (min f f.hundred (f.product q f.hundred)))
    unfolding bits_of
    percentage-IsPercent (pos n) capacity up room =
        let bits = n * 8 in
        round2-IsPercent (f.product (f.quotient (pos bits) capacity) f.hundred)
          (product-IsLow (f.quotient (pos bits) capacity) (h.quotient_nonneg bits capacity room))
    percentage-IsPercent (negsuc n) capacity up room = ground arith

    compute_util-IsPercentIf :
        (prev : Option ℕ) (curr : ℕ) (elapsed : V) (speed : ℕ)
        → IsPercentIf (compute_util f prev curr elapsed speed)
    unfolding compute_util
    compute_util-IsPercentIf none curr elapsed speed = tt
    compute_util-IsPercentIf (some prev) curr elapsed speed =
        let capacity = f.scale (speed * 1000000) elapsed in
        let delta = difference curr prev in
        elim (Bool-cases (f.less_eq elapsed f.zero || nat_eq speed 0)) [
          | inl a ↦ rw a tt
          | inr a ↦ elim (Bool-cases (is_negative delta)) [
            | inl b ↦ rw (a, b) tt
            | inr b ↦ elim (Bool-cases (f.less_eq capacity f.zero)) [
              | inl c ↦ rw (a, b, c) tt
              | inr c ↦ rw (a, b, c) (percentage-IsPercent delta capacity b c)
            ]
          ]
        ]

    reading-IsInRange :
        (now : V) (prev : Dict String (Snapshot V)) (e : String × PortRow)
        → IsInRange (reading f now prev e)
    unfolding reading
    reading-IsInRange now prev e = elim (Option-cases (get e.0 prev)) [
      | inl n ↦
          let a = compute_util-IsPercentIf none e.1.hc_in f.zero e.1.speed_mbps in
          let b = compute_util-IsPercentIf none e.1.hc_out f.zero e.1.speed_mbps in ground arith
      | inr (p, n) ↦
          let elapsed = f.minus now p.0 in
          let a = compute_util-IsPercentIf (some p.1.0) e.1.hc_in elapsed e.1.speed_mbps in
          let b = compute_util-IsPercentIf (some p.1.1) e.1.hc_out elapsed e.1.speed_mbps in
          ground arith
    ]

    pub port_readings-InRange :
        (now : V) (prev : Dict String (Snapshot V)) (rows : Dict String PortRow)
        → All IsInRange (port_readings f now prev rows)
    unfolding port_readings
    port_readings-InRange now prev [] = tt
    port_readings-InRange now prev (e ∷ rows) =
        (reading-IsInRange now prev e, port_readings-InRange now prev rows)
