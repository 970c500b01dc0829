-- ===== src/Format/Scaling.antt =====
-- In which unit `bytes` shows an amount.
use nova_server_manager.Common.{
  ℕ, zero, suc, ◌+◌, ◌*◌, ◌≤◌, ◌<◌, ◌==◌, ◌≡◌, refl, ◌⊎◌, inl, inr, false, arith, Fraction, whole,
  le_fraction, Bool-cases,
}
use nova_server_manager.Format.{Amount, scale, bytes}

-- The bytes in a unit.
abbrev pub unit_size : ℕ → ℕ
unit_size zero = 1
unit_size (suc unit) = unit_size unit * 1024

-- The amount is `num / d` bytes, in a unit up to `last`: 1024 of it or more only in the last unit, and
-- less than one of it only in bytes.
abbrev pub IsReadable : (num d last : ℕ) → Amount → Type 0
IsReadable num d last a =
    (a.size.num ≡ num)
    × (a.size.den ≡ d * unit_size a.unit)
    × (a.unit ≤ last)
    × ((a.unit ≡ last) ⊎ (a.size.num < 1024 * a.size.den))
    × ((a.unit ≡ 0) ⊎ (a.size.den ≤ a.size.num))

scale-IsReadable :
    (left unit : ℕ) (size : Fraction) (d : ℕ)
    → size.den ≡ d * unit_size unit
    → (unit ≡ 0) ⊎ (size.den ≤ size.num)
    → IsReadable size.num d (unit + left) (scale left unit size)
unfolding scale
scale-IsReadable zero unit size d e h = (refl, e, omega arith, inl (omega arith), h)
scale-IsReadable (suc left) unit size d e h = elim (Bool-cases (le_fraction (whole 1024) size)) [
  | inl large ↦
      let next : unit + suc left ≡ suc unit + left = omega arith in
      rw (large, next)
        (scale-IsReadable left (suc unit) (record { num = size.num; den = size.den * 1024 }) d
          (ground arith) (inr (ground arith)))
  | inr small ↦ rw small (refl, e, omega arith, inr (ground arith), h)
]

-- A positive amount is shown as itself, in bytes or up to TB: less than 1024 of the unit, unless it is
-- TB, and at least one of it, unless it is the byte.
pub bytes-IsReadable :
    (value : Fraction) → 0 < value.num → IsReadable value.num value.den 4 (bytes value)
unfolding bytes
bytes-IsReadable value h =
    let positive : (value.num == 0) ≡ false = ground arith in
    rw positive (scale-IsReadable 4 0 value value.den (ground arith) (inl refl))
