-- ===== src/Sast/Tests.antt =====
-- Dates and hours that a calendar shows (demo/heartbeat/src/sast.ts).
use ctf_website.Sast.Easter.{IsEaster, easter_sunday-IsEaster}
use ctf_website.Sast.Hours.{IsOpen, is_calling_time-IsOpen}
use ctf_website.Base.{ℕ, ◌≡◌, refl, true, false, ◌+◌, arith}
use ctf_website.Base.Int.{negsuc}
use ctf_website.Sast.{
  LocalDate, easter_sunday, day_number, is_public_holiday, is_calling_time, add_days, sast_now,
}

abbrev date : ℕ → ℕ → ℕ → LocalDate
date y m d = record { year = y; month = m; day = d }

easter_2026 : easter_sunday 2026 ≡ date 2026 4 5
unfolding easter_sunday
easter_2026 = refl

epoch : day_number (date 1970 1 1) ≡ 719468
unfolding day_number
epoch = refl

good_friday : is_public_holiday (date 2026 4 3) ≡ true
unfolding is_public_holiday
good_friday = refl

leap_day : add_days (date 2028 3 1) (negsuc 0) ≡ date 2028 2 29
unfolding add_days
leap_day = refl

new_year : add_days (date 2027 1 1) (negsuc 0) ≡ date 2026 12 31
unfolding add_days
new_year = refl

-- Monday 28 September 2026, 10:00 in South Africa.
monday_morning : is_calling_time 1790582400000 ≡ true
unfolding is_calling_time
monday_morning = refl

-- Heritage Day.
heritage_day : is_calling_time 1790236800000 ≡ false
unfolding is_calling_time
heritage_day = refl

easter_sunday-IsEaster_example : IsEaster (easter_sunday 2026)
easter_sunday-IsEaster_example = easter_sunday-IsEaster 2026

is_calling_time-IsOpen_example : IsOpen (sast_now (1790582400000 + 300000))
is_calling_time-IsOpen_example =
    is_calling_time-IsOpen 1790582400000 300000 monday_morning (omega arith)
