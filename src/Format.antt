-- ===== src/Format.antt =====
-- frontend/src/lib/format.ts: the numbers and units of `bytes`, `duration` and `ago`. What the browser
-- prints for a number is not modelled, and the words are constructors.
pub mod Scaling
use nova_server_manager.Common.{
  ℕ, zero, suc, ◌-◌, ◌*◌, ◌/◌, ◌%◌, ◌==◌, ltb, Option, none, some, if◌then◌else◌, Fraction, whole,
  le_fraction,
}

-- An amount in a unit, where unit 0 is the byte and each unit has 1024 of the one before.
pub record Amount : Type 0 where
  pub size : Fraction
  pub unit : ℕ

-- The loop: `left` is `units.length - 1 - unit`.
unfoldable pub scale : (left unit : ℕ) → Fraction → Amount
scale zero unit size = record { size = size; unit = unit }
scale (suc left) unit size =
    let next = scale left (suc unit) (record { num = size.num; den = size.den * 1024 }) in
    if le_fraction (whole 1024) size then next else record { size = size; unit = unit }

-- `bytes`: the units are those of bytes, KB, MB, GB and TB.
unfoldable pub bytes : Fraction → Amount
unfolding scale
bytes value = if value.num == 0 then record { size = whole 0; unit = 0 } else scale 4 0 value

pub data Span : Type 0 where
  dash : Span
  in_seconds : (seconds : ℕ) → Span
  in_minutes : (minutes seconds : ℕ) → Span

unfoldable pub duration : Option ℕ → Span
duration none = dash
duration (some seconds) =
    if ltb seconds 60 then in_seconds seconds else in_minutes (seconds / 60) (seconds % 60)

pub data Age : Type 0 where
  unknown just_now : Age
  minutes_ago hours_ago days_ago : ℕ → Age

-- The times are in milliseconds; a date in the future is now.
unfoldable pub ago : (now : ℕ) → (date : Option ℕ) → Age
ago now none = unknown
ago now (some date) =
    let past = now - date in
    if ltb past 60000
    then just_now
    else if ltb past 3600000
    then minutes_ago (past / 60000)
    else if ltb past 86400000
    then hours_ago (past / 3600000)
    else days_ago (past / 86400000)
