-- ===== src/Common/Numbers.antt =====
-- JavaScript numbers that need not be whole, as exact non-negative fractions. Rounding of floating
-- point numbers is left out. A fraction is proper if its denominator is not 0.
use nova_server_manager.Common.Tests.{leb, ltb, if◌then◌else◌}
use Prim.Native.Nat.{ℕ, ◌*◌, ◌<◌, ◌≤◌}
use mathlib.Core.Bool.{Bool}

pub record Fraction : Type 0 where
  pub num : ℕ
  pub den : ℕ

abbrev pub IsProper : Fraction → Type 0
IsProper a = 0 < a.den

abbrev pub whole : ℕ → Fraction
whole n = record { num = n; den = 1 }

abbrev pub le_fraction : Fraction → Fraction → Bool
le_fraction a b = leb (a.num * b.den) (b.num * a.den)

abbrev pub lt_fraction : Fraction → Fraction → Bool
lt_fraction a b = ltb (a.num * b.den) (b.num * a.den)

infix 50 ◌≤Q◌
abbrev pub ◌≤Q◌ : Fraction → Fraction → Type 0
a ≤Q b = a.num * b.den ≤ b.num * a.den

abbrev pub min_fraction : Fraction → Fraction → Fraction
min_fraction a b = if le_fraction a b then a else b

abbrev pub max_fraction : Fraction → Fraction → Fraction
max_fraction a b = if le_fraction a b then b else a

abbrev pub times : Fraction → ℕ → Fraction
times a n = record a { num = a.num * n }

abbrev pub over : Fraction → Fraction → Fraction
over a b = record { num = a.num * b.den; den = a.den * b.num }
