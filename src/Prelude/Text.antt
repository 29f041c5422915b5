-- ===== src/Prelude/Text.antt =====
-- Texts as lists of code points, for the code that lowers, strips and searches them. Python's
-- `lower` and `strip` are modelled on ASCII: other letters and spaces stay as they are.
use Prim.Native.Char.{code}
use aruba_network_agent.Prelude.{
  ◌≡◌, ◌↔◌, arith, Eq, nat_eq_iff, ℕ, zero, suc, ◌+◌, ◌-◌, String, Bool, true, false, not, keep,
  ◌&&◌, ◌||◌, List, [], ◌∷◌, map, leb, nat_eq, if◌then◌else◌,
}

abbrev pub codes : String → List ℕ
codes String.[] = []
codes (String.◌∷◌ c s) = code c ∷ codes s

unfoldable pub lower_code : ℕ → ℕ
lower_code c = if leb b'A' c && leb c b'Z' then c + 32 else c

-- `s.lower()`
unfoldable pub lower : List ℕ → List ℕ
unfolding lower_code
lower = map lower_code

-- `s.startswith(p)`
unfoldable pub starts_with : List ℕ → List ℕ → Bool
starts_with [] s = true
starts_with (p ∷ ps) [] = false
starts_with (p ∷ ps) (c ∷ s) = nat_eq p c && starts_with ps s

-- `p in s`
unfoldable pub is_infix : List ℕ → List ℕ → Bool
unfolding starts_with
is_infix p [] = starts_with p []
is_infix p (c ∷ s) = starts_with p (c ∷ s) || is_infix p s

unfoldable pub upper_code : ℕ → ℕ
upper_code c = if leb b'a' c && leb c b'z' then c - 32 else c

-- `s.upper()`
unfoldable pub upper : List ℕ → List ℕ
unfolding upper_code
upper = map upper_code

-- `s.replace(c, "")` for one character
unfoldable pub without : ℕ → List ℕ → List ℕ
without c s = keep (λ d. not (nat_eq d c)) s

abbrev pub is_space : ℕ → Bool
is_space c = nat_eq c b' ' || leb 9 c && leb c 13

unfoldable pub strip_left : List ℕ → List ℕ
strip_left [] = []
strip_left (c ∷ s) = let rest = strip_left s in if is_space c then rest else c ∷ s

unfoldable pub strip_right : List ℕ → List ℕ
strip_right [] = []
strip_right (c ∷ s) = elim (strip_right s) [
  | [] ↦ if is_space c then [] else c ∷ []
  | d ∷ ds ↦ c ∷ d ∷ ds
]

-- `s.strip()`
unfoldable pub strip : List ℕ → List ℕ
unfolding strip_left strip_right
strip s = strip_right (strip_left s)

abbrev pub all_digits : List ℕ → Bool
all_digits [] = true
all_digits (c ∷ s) = (leb b'0' c && leb c b'9') && all_digits s

-- `s.isdigit()`
unfoldable pub is_digit : List ℕ → Bool
is_digit [] = false
is_digit (c ∷ s) = all_digits (c ∷ s)

-- `s[n:]`
unfoldable pub drop : ℕ → List ℕ → List ℕ
drop zero s = s
drop (suc n) [] = []
drop (suc n) (c ∷ s) = drop n s

-- `s == t`
unfoldable pub same_text : List ℕ → List ℕ → Bool
same_text [] [] = true
same_text (c ∷ s) (d ∷ t) = nat_eq c d && same_text s t
same_text _ _ = false

pub same_text_iff : (s t : List ℕ) → (same_text s t ≡ true) ↔ (s ≡ t)
unfolding same_text
same_text_iff [] [] = ground arith
same_text_iff [] (d ∷ t) = ground arith
same_text_iff (c ∷ s) [] = ground arith
same_text_iff (c ∷ s) (d ∷ t) = ground (arith, same_text_iff s t, nat_eq_iff c d)

instance abbrev pub text_Eq : Eq (List ℕ)
text_Eq = record { test = same_text; test_iff = same_text_iff }
