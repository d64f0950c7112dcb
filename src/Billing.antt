-- ===== src/Billing.antt =====
-- app/worker/lib/billing.ts: minutes that a client is charged for. A length of a call is a fraction of
-- seconds, since calls of fractional seconds are stored as they are reported; the arithmetic is exact,
-- as that of doubles is for all but absurd fractions.
pub mod Ceiling
mod Tests
use ctf_website.Base.{
  ℕ, suc, ◌+◌, ◌-◌, ◌*◌, ◌/◌, Bool, true, false, Option, none, some, List, [], ◌∷◌, ltb,
  if◌then◌else◌,
}
use ctf_website.Base.Int.{ℤ, pos, negsuc}

-- `over` parts of a second, of which `suc parts` make one.
pub record Fraction : Type 0 where
  pub over : ℤ
  pub parts : ℕ

-- `number | null | undefined`: no number, an infinity or NaN, and the finite numbers.
pub data Duration : Type 0 where
  missing not_finite : Duration
  of_seconds : Fraction → Duration

-- The parts that make a minute.
abbrev pub minute : ℕ → ℕ
minute parts = 60 * suc parts

-- Math.ceil of n / k.
unfoldable pub ceil_div : ℕ → ℕ → ℕ
ceil_div n k = (n + (k - 1)) / k

abbrev pub ceil_minutes : ℤ → ℕ → ℕ
ceil_minutes (pos n) parts = ceil_div n (minute parts)
ceil_minutes (negsuc n) parts = 0

unfoldable pub billable_minutes_for_call : Duration → ℕ
billable_minutes_for_call missing = 0
billable_minutes_for_call not_finite = 0
billable_minutes_for_call (of_seconds seconds) = ceil_minutes seconds.over seconds.parts

abbrev pub one_if : Bool → ℕ
one_if true = 1
one_if false = 0

-- CASE WHEN duration_s > 0 THEN CAST(duration_s / 60.0 AS INTEGER) + (duration_s / 60.0 > …) ELSE 0
-- END: a fraction is left over when the whole minutes fall short of the length.
abbrev pub whole_and_rest : ℤ → ℕ → ℕ
whole_and_rest (pos n) parts =
    if ltb 0 n then n / minute parts + one_if (ltb (n / minute parts * minute parts) n) else 0
whole_and_rest (negsuc n) parts = 0

-- A column holds NULL or a finite number.
unfoldable pub billable_minutes_sql : Option Fraction → ℕ
billable_minutes_sql none = 0
billable_minutes_sql (some seconds) = whole_and_rest seconds.over seconds.parts

unfoldable pub billable_minutes : List Duration → ℕ
billable_minutes [] = 0
billable_minutes (duration ∷ durations) =
    billable_minutes_for_call duration + billable_minutes durations

-- SUM of the expression over the rows.
unfoldable pub sum_sql : List (Option Fraction) → ℕ
sum_sql [] = 0
sum_sql (row ∷ rows) = billable_minutes_sql row + sum_sql rows

-- What is read of the column.
abbrev pub of_column : Option Fraction → Duration
of_column none = missing
of_column (some seconds) = of_seconds seconds
