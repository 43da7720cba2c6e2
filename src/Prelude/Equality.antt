-- ===== src/Prelude/Equality.antt =====
-- Decidable equality as an interface: Python's `==` on keys.
use Prim.Native.Nat.{ℕ}
use Prim.Native.String.{String}
use mathlib.Core.Bool.{Bool, true, false, ◌&&◌}
use mathlib.Core.Logic.{◌↔◌, ◌≢◌}
use mathlib.Core.Path.{◌≡◌, refl}
use native.Mathlib.Omega.{arith}
use text.Mathlib.Text.{◌==◌ as str_eq}
use text.Mathlib.TextEquality.{eq_iff}
use ml_monitor.Prelude.Tests.{nat_beq, nat_beq_iff}

pub record Eq {ℓ} (A : Type ℓ) : Type ℓ where
  pub beq : A → A → Bool
  pub iff_path : (a b : A) → (beq a b ≡ true) ↔ (a ≡ b)

-- Texts by their characters.
instance abbrev pub string_eq : Eq String
string_eq = record { beq = str_eq; iff_path = eq_iff }

-- Pairs by their parts.
abbrev pub pair_beq {ℓ} : {A B : Type ℓ} → Eq A → Eq B → A × B → A × B → Bool
pair_beq e f (a, b) (c, d) = e.beq a c && f.beq b d

pub pair_beq_iff {ℓ} :
    {A B : Type ℓ} (e : Eq A) (f : Eq B) (x y : A × B) → (pair_beq e f x y ≡ true) ↔ (x ≡ y)
pair_beq_iff e f (a, b) (c, d) = ground (arith, e.iff_path a c, f.iff_path b d)

instance abbrev pub pair_eq {ℓ} : {A B : Type ℓ} ⦃e : Eq A⦄ ⦃f : Eq B⦄ → Eq (A × B)
pair_eq ⦃e⦄ ⦃f⦄ = record { beq = pair_beq e f; iff_path = pair_beq_iff e f }

-- Numbers.
instance abbrev pub nat_eq : Eq ℕ
nat_eq = record { beq = nat_beq; iff_path = nat_beq_iff }

-- `a == b`
infix 50 ◌==◌
abbrev pub ◌==◌ {ℓ} : {A : Type ℓ} ⦃e : Eq A⦄ → A → A → Bool
◌==◌ ⦃e⦄ = e.beq

pub ==_refl {ℓ} : {A : Type ℓ} ⦃e : Eq A⦄ (a : A) → (a == a) ≡ true
==_refl ⦃e⦄ a = (e.iff_path a a).1 refl

pub ne_of_beq-false {ℓ} : {A : Type ℓ} ⦃e : Eq A⦄ {a b : A} → (a == b) ≡ false → a ≢ b
ne_of_beq-false ⦃e⦄ {a} {b} h p = cc (h, (e.iff_path a b).1 p)
