-- ===== src/Sast.antt =====
-- South African calling hours, demo/heartbeat/src/sast.ts. A `Date` is its milliseconds since the
-- epoch; what the source has `Date.UTC` and the readers `getUTC…` do is the calendar below, whose
-- days count from 1 March of year 0. It is theirs from year 100 on.
pub mod Easter
pub mod Hours
mod Tests
use ctf_website.Base.{
  ℕ, ◌+◌, ◌-◌, ◌*◌, ◌/◌, ◌%◌, Bool, true, false, not, ◌&&◌, ◌||◌, ltb, leb, ◌==◌, if◌then◌else◌,
  List, [], ◌∷◌, String,
}
use ctf_website.Base.Int.{ℤ, pos, negsuc}

pub record LocalDate : Type 0 where
  pub year : ℕ
  pub month : ℕ
  pub day : ℕ

-- Years and months from March on.
abbrev march_year : ℕ → ℕ → ℕ
march_year year month = if leb month 2 then year - 1 else year

abbrev march_month : ℕ → ℕ
march_month month = if leb month 2 then month + 9 else month - 3

-- `Date.UTC(year, month - 1, day)` in days.
unfoldable pub day_number : LocalDate → ℕ
day_number date =
    let y = march_year date.year date.month in
    y * 365 + y / 4 + y / 400 - y / 100 + (153 * march_month date.month + 2) / 5 + date.day - 1

abbrev year_of_era : ℕ → ℕ
year_of_era n = (n + n / 36524 - n / 1460 - n / 146096) / 365

abbrev in_march_year : ℕ → ℕ → LocalDate
in_march_year year n =
    let month = (5 * n + 2) / 153 in
    record {
      year = if ltb month 10 then year else year + 1;
      month = if ltb month 10 then month + 3 else month - 9;
      day = n - (153 * month + 2) / 5 + 1;
    }

-- `getUTCFullYear`, `getUTCMonth` and `getUTCDate` of a day.
unfoldable pub date_of : ℕ → LocalDate
date_of n =
    let era = n / 146097 in
    let rest = n % 146097 in
    let y = year_of_era rest in in_march_year (era * 400 + y) (rest + y / 100 - y * 365 - y / 4)

-- `getUTCDay` of a day: 1 March of year 0 was a Wednesday.
abbrev pub day_of_week : ℕ → ℕ
day_of_week n = (n + 3) % 7

unfoldable pub add_days : LocalDate → ℤ → LocalDate
unfolding day_number date_of
add_days date (pos n) = date_of (day_number date + n)
add_days date (negsuc n) = date_of (day_number date - (n + 1))

unfoldable pub weekday : LocalDate → ℕ
unfolding day_number
weekday date = day_of_week (day_number date)

-- `h + l - 7m + 114` of the source, from the year's place in the cycles.
abbrev paschal : ℕ → ℕ → ℕ → ℕ
paschal a h l = h + l + 114 - 7 * ((a + 11 * h + 22 * l) / 451)

unfoldable pub easter_sunday : ℕ → LocalDate
easter_sunday year =
    let a = year % 19 in
    let b = year / 100 in
    let c = year % 100 in
    let d = b / 4 in
    let e = b % 4 in
    let f = (b + 8) / 25 in
    let g = (b + 1 - f) / 3 in
    let h = (19 * a + b + 15 - d - g) % 30 in
    let i = c / 4 in
    let k = c % 4 in
    let l = (32 + 2 * e + 2 * i - h - k) % 7 in
    record { year = year; month = paschal a h l / 31; day = paschal a h l % 31 + 1 }

unfoldable pub same_day : LocalDate → LocalDate → Bool
same_day a b = a.year == b.year && a.month == b.month && a.day == b.day

-- The text `MM-DD`, as the number MMDD.
abbrev key : ℕ → ℕ → ℕ
key month day = month * 100 + day

abbrev fixed_holidays : List ℕ
fixed_holidays = 101 ∷ 321 ∷ 427 ∷ 501 ∷ 616 ∷ 809 ∷ 924 ∷ 1216 ∷ 1225 ∷ 1226 ∷ []

has : List ℕ → ℕ → Bool
has [] k = false
has (x ∷ xs) k = x == k || has xs k

unfoldable pub is_named_holiday : LocalDate → Bool
unfolding has same_day add_days easter_sunday
is_named_holiday date =
    if has fixed_holidays (key date.month date.day)
    then true
    else same_day date (add_days (easter_sunday date.year) (negsuc 1))
      || same_day date (add_days (easter_sunday date.year) (pos 1))

unfoldable pub is_public_holiday : LocalDate → Bool
unfolding is_named_holiday add_days weekday
is_public_holiday date =
    if is_named_holiday date
    then true
    else weekday date == 1 && is_named_holiday (add_days date (negsuc 0))

pub record LocalTime : Type 0 where
  pub date : LocalDate
  pub weekday : ℕ
  pub minutes : ℕ

abbrev pub sast_offset_ms : ℕ
sast_offset_ms = 7200000

-- The days up to an instant in South Africa; the epoch is day 719468.
abbrev pub local_day : ℕ → ℕ
local_day now = (now + sast_offset_ms) / 86400000 + 719468

abbrev pub local_minutes : ℕ → ℕ
local_minutes now = (now + sast_offset_ms) / 3600000 % 24 * 60 + (now + sast_offset_ms) / 60000 % 60

unfoldable pub sast_now : ℕ → LocalTime
sast_now now = record {
  date = date_of (local_day now);
  weekday = day_of_week (local_day now);
  minutes = local_minutes now;
}

pub record Window : Type 0 where
  pub from : ℕ
  pub to : ℕ

abbrev pub weekday_window : Window
weekday_window = record { from = 8 * 60; to = 18 * 60 }

abbrev pub saturday_window : Window
saturday_window = record { from = 9 * 60; to = 13 * 60 }

abbrev last_call_margin_minutes : ℕ
last_call_margin_minutes = 10

abbrev pub window_of : ℕ → Window
window_of day = if day == 6 then saturday_window else weekday_window

unfoldable pub in_hours : Bool → ℕ → ℕ → Bool
in_hours holiday day minutes =
    if day == 0 || holiday
    then false
    else leb (window_of day).from minutes
      && ltb minutes ((window_of day).to - last_call_margin_minutes)

unfoldable pub is_calling_time : ℕ → Bool
unfolding sast_now is_public_holiday in_hours
is_calling_time now =
    let local = sast_now now in in_hours (is_public_holiday local.date) local.weekday local.minutes
