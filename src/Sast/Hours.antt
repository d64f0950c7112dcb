-- ===== src/Sast/Hours.antt =====
-- What calling hours promise (demo/heartbeat/src/sast.ts).
use ctf_website.Base.{ℕ, ◌+◌, ◌*◌, ◌≤◌, ◌<◌, ◌≡◌, ◌≢◌, false, true, arith, Bool}
use ctf_website.Sast.{
  sast_now, is_calling_time, is_public_holiday, window_of, local_day, local_minutes, LocalTime,
  in_hours, date_of, day_of_week,
}

-- MAX_DURATION_SECONDS of demo/heartbeat/src/callbackAssistant.ts.
abbrev pub max_duration_seconds : ℕ
max_duration_seconds = 300

-- The hours in which a call may run: no Sunday, no public holiday, inside the day's window.
pub record IsOpen (local : LocalTime) : Type 0 where
  pub not_sunday : local.weekday ≢ 0
  pub not_holiday : is_public_holiday local.date ≡ false
  pub opened : (window_of local.weekday).from ≤ local.minutes
  pub not_closed : local.minutes < (window_of local.weekday).to

-- A call that may start at `now` is at least ten minutes from the end of the window.
record Starts (local : LocalTime) : Type 0 where
  not_sunday : local.weekday ≢ 0
  not_holiday : is_public_holiday local.date ≡ false
  opened : (window_of local.weekday).from ≤ local.minutes
  ten_left : local.minutes + 10 < (window_of local.weekday).to

in_hours_parts :
    (holiday : Bool) (day minutes : ℕ)
    → in_hours holiday day minutes ≡ true
    → (day ≢ 0)
      × (holiday ≡ false)
      × ((window_of day).from ≤ minutes)
      × (minutes + 10 < (window_of day).to)
unfolding in_hours
in_hours_parts holiday day minutes h = (ground arith, ground arith, ground arith, ground arith)

in_hours-Starts :
    (local : LocalTime)
    → in_hours (is_public_holiday local.date) local.weekday local.minutes ≡ true
    → Starts local
in_hours-Starts local h =
    let parts = in_hours_parts _ _ _ h in
    record { not_sunday = parts.0; not_holiday = parts.1; opened = parts.2; ten_left = parts.3 }

-- Five minutes later it is the same day.
same_local_day :
    (now later : ℕ)
    → later ≤ 300000
    → local_minutes now < 1075
    → local_day (now + later) ≡ local_day now
same_local_day now later short early = omega arith

minutes_later :
    (now later : ℕ)
    → later ≤ 300000
    → local_minutes now < 1075
    → (local_minutes now ≤ local_minutes (now + later))
      × (local_minutes (now + later) ≤ local_minutes now + 5)
minutes_later now later short early = (omega arith, omega arith)

at_day : ℕ → ℕ → LocalTime
at_day day minutes = record { date = date_of day; weekday = day_of_week day; minutes = minutes }

early : (local : LocalTime) → Starts local → local.minutes < 1070
early local h = ground arith

later-IsOpen :
    (day minutes minutes' : ℕ)
    → Starts (at_day day minutes)
    → minutes ≤ minutes'
    → minutes' ≤ minutes + 5
    → IsOpen (at_day day minutes')
unfolding at_day
later-IsOpen day minutes minutes' h low high = record {
  not_sunday = h.not_sunday;
  not_holiday = h.not_holiday;
  opened = omega arith;
  not_closed = omega arith;
}

-- A call that is started in calling hours and takes five minutes at most, the longest that a call
-- may take, is over before the day's window closes, and runs on no Sunday and no public holiday.
pub is_calling_time-IsOpen :
    (now later : ℕ)
    → is_calling_time now ≡ true
    → later ≤ max_duration_seconds * 1000
    → IsOpen (sast_now (now + later))
unfolding is_calling_time sast_now at_day
is_calling_time-IsOpen now later h short =
    let starts = in_hours-Starts (sast_now now) h in
    let soon = early (sast_now now) starts in
    let grows = minutes_later now later short (omega arith) in
    let same = same_local_day now later short (omega arith) in
    rw same (
      later-IsOpen (local_day now) (local_minutes now) (local_minutes (now + later)) starts grows.0
        grows.1)
