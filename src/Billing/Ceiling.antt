-- ===== src/Billing/Ceiling.antt =====
-- The rounding rule in its two forms (app/worker/lib/billing.ts).
use native.Mathlib.Nat.{div-lt_iff_lt-mul, div-mul-le_self, suc-mul}
use ctf_website.Base.{
  ℕ, zero, suc, ◌+◌, ◌-◌, ◌*◌, ◌/◌, ◌≤◌, ◌<◌, ◌≡◌, ◌↔◌, refl, sym, true, Option, none, some, List,
  [], ◌∷◌, map, arith, ltb, Bool-cases, inl, inr,
}
use ctf_website.Base.Int.{ℤ, pos, negsuc}
use ctf_website.Billing.{
  Fraction, of_seconds, minute, ceil_div, ceil_minutes, one_if, whole_and_rest,
  billable_minutes_for_call, billable_minutes_sql, billable_minutes, sum_sql, of_column,
}

-- The ceiling is the least whole number that is no less.
ceil_div_least : (n k m : ℕ) → 0 < k → (ceil_div n k ≤ m) ↔ (n ≤ m * k)
unfolding ceil_div
ceil_div_least n k m positive =
    let h : ((n + (k - 1)) / k < suc m) ↔ (n + (k - 1) < suc m * k) = div-lt_iff_lt-mul positive in
    let e : suc m * k ≡ m * k + k = suc-mul m k in ground (arith, h, e)

ceil_div-no_less : (n k q : ℕ) → 0 < k → q * k ≤ n → q ≤ ceil_div n k
ceil_div-no_less n k zero positive below = omega arith
ceil_div-no_less n k (suc q) positive below =
    let least = ceil_div_least n k q positive in
    let next : suc q * k ≡ q * k + k = suc-mul q k in ground (arith, least, next, below, positive)

-- Where a part is left over, the ceiling is one more than the quotient.
ceil_div-one_if : (n k : ℕ) → 0 < k → n / k + one_if (ltb (n / k * k) n) ≡ ceil_div n k
ceil_div-one_if n k positive =
    let above : (n / k < suc (n / k)) ↔ (n < suc (n / k) * k) = div-lt_iff_lt-mul positive in
    counted (n / k) (div-mul-le_self n k) (ground (arith, above))
  where
    counted : (q : ℕ) → q * k ≤ n → n < suc q * k → q + one_if (ltb (q * k) n) ≡ ceil_div n k
    counted q below above =
        let next : suc q * k ≡ q * k + k = suc-mul q k in
        let no_less = ceil_div-no_less n k q positive below in
        let here = ceil_div_least n k q positive in
        let there = ceil_div_least n k (suc q) positive in
        elim (Bool-cases (ltb (q * k) n)) [
          | inl more ↦ ground (arith, more, there, here, above)
          | inr even ↦ ground (arith, even, here, no_less)
        ]

ceil_div_zero : (k : ℕ) → 0 < k → ceil_div 0 k ≡ 0
ceil_div_zero k positive = let least = ceil_div_least 0 k 0 positive in ground (arith, least)

ceil_minutes-whole_and_rest :
    (over : ℤ) (parts : ℕ) → ceil_minutes over parts ≡ whole_and_rest over parts
ceil_minutes-whole_and_rest (pos zero) parts = ceil_div_zero (minute parts) (omega arith)
ceil_minutes-whole_and_rest (pos (suc n)) parts =
    let some_time : ltb 0 (suc n) ≡ true = ground arith in
    rw some_time (sym (ceil_div-one_if (suc n) (minute parts) (omega arith)))
ceil_minutes-whole_and_rest (negsuc n) parts = refl

billable_minutes_sql-for_call :
    (row : Option Fraction) → billable_minutes_for_call (of_column row) ≡ billable_minutes_sql row
unfolding billable_minutes_for_call billable_minutes_sql
billable_minutes_sql-for_call none = refl
billable_minutes_sql-for_call (some seconds) =
    ceil_minutes-whole_and_rest seconds.over seconds.parts

-- The minutes that are counted call by call and the sum that SQLite computes over the column agree
-- for any rows: lengths of fractional seconds, negative ones, nought and rows without a length.
pub billable_minutes-sum_sql :
    (rows : List (Option Fraction)) → billable_minutes (map of_column rows) ≡ sum_sql rows
unfolding billable_minutes sum_sql
billable_minutes-sum_sql [] = refl
billable_minutes-sum_sql (row ∷ rows) =
    rw (billable_minutes_sql-for_call row, billable_minutes-sum_sql rows)

-- A call whose length is any fraction of seconds that is not negative is charged the least number of
-- whole minutes that is no shorter than the call.
pub billable_minutes_for_call_least :
    (over parts minutes : ℕ)
    → (billable_minutes_for_call (of_seconds (record { over = pos over; parts = parts })) ≤ minutes)
      ↔ (over ≤ minutes * minute parts)
unfolding billable_minutes_for_call
billable_minutes_for_call_least over parts minutes =
    ceil_div_least over (minute parts) minutes (omega arith)
