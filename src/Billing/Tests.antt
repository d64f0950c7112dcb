-- ===== src/Billing/Tests.antt =====
-- A call of sixty seconds and a half, one that is still up and one of just a minute.
use ctf_website.Base.Int.{pos}
use ctf_website.Base.{◌*◌, ◌≤◌, ◌≡◌, ◌↔◌, Option, none, some, List, [], ◌∷◌, map, refl}
use ctf_website.Billing.{
  Fraction, of_seconds, minute, of_column, ceil_div, billable_minutes_for_call, billable_minutes,
  sum_sql,
}
use ctf_website.Billing.Ceiling.{billable_minutes_for_call_least, billable_minutes-sum_sql}

abbrev half_over : Fraction
half_over = record { over = pos 121; parts = 1 }

abbrev column : List (Option Fraction)
column = some half_over ∷ none ∷ some (record { over = pos 60; parts = 0 }) ∷ []

half_over_test : billable_minutes_for_call (of_seconds half_over) ≡ 2
unfolding billable_minutes_for_call ceil_div
half_over_test = refl

billable_minutes-sum_sql_example : billable_minutes (map of_column column) ≡ sum_sql column
billable_minutes-sum_sql_example = billable_minutes-sum_sql column

billable_minutes_for_call_least_example :
    (billable_minutes_for_call (of_seconds half_over) ≤ 2) ↔ (121 ≤ 2 * minute 1)
billable_minutes_for_call_least_example = billable_minutes_for_call_least 121 1 2
