-- ===== src/Scheduler/Next.antt =====
-- When a cron expression is due: `match` and `Next` of cli/scheduler/cronexpr.go.
pub mod First
use xclaw.Prelude.{ℕ, zero, suc, ◌+◌, ◌-◌, ◌/◌, Bool, true, false, ◌&&◌, ltb, if◌then◌else◌}
use xclaw.Scheduler.Calendar.{
  date, minute_of, hour_of, weekday_of, truncate_minute, minute_length, add_years,
}
use xclaw.Scheduler.CronExpr.{CronExpr, contains}

unfoldable pub match_time : CronExpr → ℕ → Bool
match_time c t =
    contains c.minute (minute_of t)
    && (contains c.hour (hour_of t)
        && (contains c.dom (date t).day
            && (contains c.month (date t).month && contains c.dow (weekday_of t))))

-- The loop over the minutes up to the deadline; without a match it gives the zero time.
unfoldable pub scan : ℕ → CronExpr → ℕ → ℕ → ℕ
scan zero c deadline t = 0
scan (suc fuel) c deadline t =
    let later = scan fuel c deadline (t + minute_length) in
    if ltb deadline t then 0 else if match_time c t then t else later

-- The first minute that Next looks at, and the last instant.
abbrev pub first_minute : ℕ → ℕ
first_minute from = truncate_minute from + minute_length

abbrev pub deadline_of : ℕ → ℕ
deadline_of from = add_years 5 (first_minute from)

-- Fuel for every minute up to the deadline.
abbrev pub minutes_left : ℕ → ℕ → ℕ
minutes_left deadline t = (deadline - t) / minute_length + 1

unfoldable pub next : CronExpr → ℕ → ℕ
next c from =
    let t = first_minute from in
    let deadline = deadline_of from in scan (minutes_left deadline t) c deadline t
