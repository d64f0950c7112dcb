-- ===== src/Sast/Easter.antt =====
-- The day of Easter (demo/heartbeat/src/sast.ts).
use ctf_website.Base.{ℕ, ◌≤◌, ◌<◌, ◌≡◌, ◌⊎◌, arith, ◌+◌, ◌-◌, ◌*◌, ◌/◌, ◌%◌, refl}
use ctf_website.Sast.{LocalDate, easter_sunday, weekday, day_number, paschal}

-- Between 22 March and 25 April.
abbrev IsInSeason : LocalDate → Type 0
IsInSeason date =
    ((date.month ≡ 3) × (22 ≤ date.day) × (date.day ≤ 31))
    ⊎ ((date.month ≡ 4) × (1 ≤ date.day) × (date.day ≤ 25))

-- A Sunday of that season.
pub record IsEaster (date : LocalDate) : Type 0 where
  pub sunday : weekday date ≡ 0
  pub season : IsInSeason date

paschal_range :
    (a h l : ℕ) → a < 19 → h < 30 → l < 7 → (114 ≤ paschal a h l) × (paschal a h l ≤ 148)
paschal_range a h l pa ph pl = (omega arith, omega arith)

abbrev on : ℕ → ℕ → LocalDate
on year n = record { year = year; month = n / 31; day = n % 31 + 1 }

season : (year n : ℕ) → 114 ≤ n → n ≤ 148 → IsInSeason (on year n)
season year n low high = ground arith

-- Days from 1 March on are counted by `n` as well.
day_number-on :
    (year n : ℕ)
    → 114 ≤ n
    → n ≤ 148
    → day_number (on year n) ≡ year * 365 + year / 4 + year / 400 - year / 100 + n - 93
unfolding day_number
day_number-on year n low high = ground arith

-- The days from the full moon on to the Sunday.
sunday_count :
    (year h l n m : ℕ)
    → h < 30
    → n + 7 * m ≡ h + l + 114
    → 114 ≤ n
    → l ≡ (32 + 2 * (year / 100 % 4) + 2 * (year % 100 / 4) - h - year % 100 % 4) % 7
    → (year * 365 + year / 4 + year / 400 - year / 100 + n - 93 + 3) % 7 ≡ 0
sunday_count year h l n m ph en low el = omega arith

on-IsEaster :
    (year n : ℕ)
    → 114 ≤ n
    → n ≤ 148
    → (year * 365 + year / 4 + year / 400 - year / 100 + n - 93 + 3) % 7 ≡ 0
    → IsEaster (on year n)
unfolding weekday
on-IsEaster year n low high s = record {
  sunday = rw (day_number-on year n low high) s;
  season = season year n low high;
}

-- The Sunday after a full moon that the cycles of the year place at `h`.
after_moon :
    (year a h l : ℕ)
    → a < 19
    → h < 30
    → l ≡ (32 + 2 * (year / 100 % 4) + 2 * (year % 100 / 4) - h - year % 100 % 4) % 7
    → IsEaster (on year (paschal a h l))
after_moon year a h l pa ph el =
    let range = paschal_range a h l pa ph (omega arith) in
    on-IsEaster year (paschal a h l) range.0 range.1 (
      sunday_count year h l (paschal a h l) ((a + 11 * h + 22 * l) / 451) ph (omega arith) range.0
        el)

-- In every year the date of Easter is a Sunday between 22 March and 25 April.
pub easter_sunday-IsEaster : (year : ℕ) → IsEaster (easter_sunday year)
unfolding easter_sunday
easter_sunday-IsEaster year = after_moon year (year % 19) _ _ (omega arith) (omega arith) refl
