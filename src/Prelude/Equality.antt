-- ===== src/Prelude/Equality.antt =====
-- Decidable equality as an interface: dictionary keys, tags and texts.
use Prim.Native.Nat.{ℕ}
use Prim.Native.String.{String}
use mathlib.Core.Path.{◌≡◌, refl}
use mathlib.Core.Logic.{◌↔◌}
use mathlib.Core.Bool.{Bool, true, ◌&&◌}
use native.Mathlib.Omega.{arith}
use text.Mathlib.Text.{◌==◌ as str_eq}
use text.Mathlib.TextEquality.{eq_iff}
use aruba_network_agent.Prelude.Tests.{nat_eq, nat_eq_iff}

-- A test that agrees with equality.
pub record Eq {ℓ} (K : Type ℓ) : Type ℓ where
  pub test : K → K → Bool
  pub test_iff : (x y : K) → (test x y ≡ true) ↔ (x ≡ y)

infix 50 ◌==◌
abbrev pub ◌==◌ {ℓ} : {K : Type ℓ} ⦃q : Eq K⦄ (x y : K) → Bool
◌==◌ ⦃q⦄ x y = q.test x y

pub ==_iff {ℓ} : {A : Type ℓ} ⦃e : Eq A⦄ (a b : A) → ((a == b) ≡ true) ↔ (a ≡ b)
==_iff ⦃e⦄ a b = e.test_iff a b

pub ==_self {ℓ} : {A : Type ℓ} ⦃e : Eq A⦄ (a : A) → (a == a) ≡ true
==_self a = (==_iff a a).1 refl

instance abbrev pub string_Eq : Eq String
string_Eq = record { test = str_eq; test_iff = eq_iff }

instance abbrev pub nat_Eq : Eq ℕ
nat_Eq = record { test = nat_eq; test_iff = nat_eq_iff }

-- A pair of keys, compared field by field.
abbrev pub pair_eq {ℓ κ} : {A : Type ℓ} {B : Type κ} ⦃d : Eq A⦄ ⦃e : Eq B⦄ → A × B → A × B → Bool
pair_eq p q = p.0 == q.0 && p.1 == q.1

pub pair_eq_iff {ℓ κ} :
    {A : Type ℓ} {B : Type κ} ⦃d : Eq A⦄ ⦃e : Eq B⦄ (p q : A × B) → (pair_eq p q ≡ true) ↔ (p ≡ q)
pair_eq_iff p q = ground (arith, ==_iff p.0 q.0, ==_iff p.1 q.1)

instance abbrev pub pair_Eq {ℓ κ} : {A : Type ℓ} {B : Type κ} ⦃d : Eq A⦄ ⦃e : Eq B⦄ → Eq (A × B)
pair_Eq = record { test = pair_eq; test_iff = pair_eq_iff }
