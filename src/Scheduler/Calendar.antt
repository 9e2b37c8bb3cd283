-- ===== src/Scheduler/Calendar.antt =====
-- The parts of Go's `time` that cli/scheduler uses. An instant is the number of nanoseconds since the
-- zero time (year 1, January 1, 00:00 UTC), which is 0; calendar dates are proleptic Gregorian.
mod Tests
use xclaw.Prelude.{ℕ, zero, suc, ◌+◌, ◌-◌, ◌*◌, ◌/◌, ◌%◌, leb, ltb, if◌then◌else◌}

abbrev pub second : ℕ
second = 1000000000

abbrev pub minute_length : ℕ
minute_length = 60 * second

abbrev pub hour_length : ℕ
hour_length = 60 * minute_length

abbrev pub day_length : ℕ
day_length = 24 * hour_length

pub record Date : Type 0 where
  pub year : ℕ
  pub month : ℕ
  pub day : ℕ

-- Years are counted from March on, so that a leap day comes last; day 0 of this count lies 306 days
-- before the zero time. An era is 400 years.
abbrev pub era_days : ℕ
era_days = 146097

abbrev year_of_era : ℕ → ℕ
year_of_era doe = (doe + doe / 36524 - doe / 1460 - doe / 146096) / 365

abbrev first_day : ℕ → ℕ
first_day yoe = 365 * yoe + yoe / 4 - yoe / 100

-- The date of the day `d` days after the zero time's.
unfoldable pub date_of_days : ℕ → Date
date_of_days d =
    let z = d + 306 in
    let doe = z % era_days in
    let yoe = year_of_era doe in
    let doy = doe - first_day yoe in
    let mp = (5 * doy + 2) / 153 in
    let m = if ltb mp 10 then mp + 3 else mp - 9 in
    let y = yoe + z / era_days * 400 in
    record { year = if leb m 2 then y + 1 else y; month = m; day = doy - (153 * mp + 2) / 5 + 1 }

-- The day of a date; February 29 of a common year is March 1, as time.Date has it.
unfoldable pub days_of_date : Date → ℕ
days_of_date date =
    let y = if leb date.month 2 then date.year - 1 else date.year in
    let mp = if leb date.month 2 then date.month + 9 else date.month - 3 in
    y / 400 * era_days + first_day (y % 400) + (153 * mp + 2) / 5 + (date.day - 1) - 306

-- t.Minute(), t.Hour(), t.Day(), t.Month(), t.Weekday(): the zero time is a Monday.
abbrev pub date : ℕ → Date
date t = date_of_days (t / day_length)

abbrev pub minute_of : ℕ → ℕ
minute_of t = t / minute_length % 60

abbrev pub hour_of : ℕ → ℕ
hour_of t = t / hour_length % 24

abbrev pub weekday_of : ℕ → ℕ
weekday_of t = (t / day_length + 1) % 7

-- t.Truncate(time.Minute)
abbrev pub truncate_minute : ℕ → ℕ
truncate_minute t = t - t % minute_length

-- t.AddDate(years, 0, 0)
unfoldable pub add_years : ℕ → ℕ → ℕ
unfolding date_of_days days_of_date
add_years years t =
    let d = date t in
    days_of_date (record d { year = d.year + years }) * day_length + t % day_length
