-- ===== src/Interfaces/Util.antt =====
-- `compute_util` of interfaces.py. The numbers are Python floats, a parameter: a type with the
-- operations that the code uses, and what it relies on of them.
use aruba_network_agent.Prelude.{
  ℕ, ◌+◌, ◌*◌, ◌-◌, ◌≡◌, Bool, true, false, ◌||◌, Option, none, some, ltb, nat_eq, if◌then◌else◌,
}

-- A Python int: `negsuc n` is -(n + 1).
pub data ℤ : Type 0 where
  pos negsuc : ℕ → ℤ

-- `m - n` of two counters
unfoldable pub difference : ℕ → ℕ → ℤ
difference m n = if ltb m n then negsuc (n - m - 1) else pos (m - n)

-- `delta * 8`
unfoldable pub bits_of : ℤ → ℤ
bits_of (pos n) = pos (n * 8)
bits_of (negsuc n) = negsuc (n * 8 + 7)

-- `x < 0`
abbrev pub is_negative : ℤ → Bool
is_negative (pos n) = false
is_negative (negsuc n) = true

pub record Floats (V : Type 0) : Type 0 where
  pub zero : V
  pub hundred : V
  pub of_int : ℕ → V
  -- `x - y`, `n * x`, `n / x`, `x * y`
  pub minus : V → V → V
  pub scale : ℕ → V → V
  pub quotient : ℤ → V → V
  pub product : V → V → V
  -- `round(x, 2)`
  pub round2 : V → V
  pub less : V → V → Bool
  pub less_eq : V → V → Bool

-- What is relied on of floats, infinity and NaN among them, where an int that is divided is one that a
-- float can hold: NaN is not less than anything; the quotient of an int from zero on by what is not at
-- most zero is NaN or from zero on, and so is a hundred times that; rounding is monotone and keeps zero
-- and a hundred. Nothing is said of the quotient of a negative int.
pub record IsFloat {V : Type 0} (f : Floats V) : Type 0 where
  pub is_nan : V → Bool
  pub zero_hundred : f.less_eq f.zero f.hundred ≡ true
  pub hundred_self : f.less_eq f.hundred f.hundred ≡ true
  pub less_less_eq : (x y : V) → f.less x y ≡ true → f.less_eq x y ≡ true
  pub nan_less : (x y : V) → is_nan x ≡ true → f.less x y ≡ false
  pub quotient_nonneg :
      (n : ℕ) (x : V)
      → f.less_eq x f.zero ≡ false
      → (is_nan (f.quotient (pos n) x) || f.less_eq f.zero (f.quotient (pos n) x)) ≡ true
  pub product_nan : (x : V) → is_nan x ≡ true → is_nan (f.product x f.hundred) ≡ true
  pub product_nonneg :
      (x : V) → f.less_eq f.zero x ≡ true → f.less_eq f.zero (f.product x f.hundred) ≡ true
  pub round2_monotone :
      (x y : V) → f.less_eq x y ≡ true → f.less_eq (f.round2 x) (f.round2 y) ≡ true
  pub round2_zero : f.round2 f.zero ≡ f.zero
  pub round2_hundred : f.round2 f.hundred ≡ f.hundred

module _ {V : Type 0} (f : Floats V) where
  -- `min(x, y)` of Python: the first unless the second is less
  abbrev pub min : V → V → V
  min x y = if f.less y x then y else x

  -- `compute_util`
  unfoldable pub compute_util : Option ℕ → ℕ → V → ℕ → Option V
  unfolding difference bits_of
  compute_util none curr_octets elapsed speed_mbps = none
  compute_util (some prev_octets) curr_octets elapsed speed_mbps =
      let delta = difference curr_octets prev_octets in
      let bits = bits_of delta in
      let capacity = f.scale (speed_mbps * 1000000) elapsed in
      if f.less_eq elapsed f.zero || nat_eq speed_mbps 0
      then none
      else if is_negative delta
      then none
      else if f.less_eq capacity f.zero
      then none
      else some (f.round2 (min f.hundred (f.product (f.quotient bits capacity) f.hundred)))
