-- ===== src/Scheduler/Calendar/Tests.antt =====
-- Dates that a calendar shows.
use xclaw.Prelude.{◌*◌, ◌/◌, ◌≡◌, refl}
use xclaw.Scheduler.Calendar.{day_length, date_of_days, days_of_date, add_years, weekday_of}

zero_time : date_of_days 0 ≡ record { year = 1; month = 1; day = 1 }
unfolding date_of_days
zero_time = refl

epoch : date_of_days 719162 ≡ record { year = 1970; month = 1; day = 1 }
unfolding date_of_days
epoch = refl

leap_day : date_of_days 738944 ≡ record { year = 2024; month = 2; day = 29 }
unfolding date_of_days
leap_day = refl

leap_day_back : days_of_date (record { year = 2024; month = 2; day = 29 }) ≡ 738944
unfolding days_of_date
leap_day_back = refl

new_year : date_of_days 738885 ≡ record { year = 2024; month = 1; day = 1 }
unfolding date_of_days
new_year = refl

leap_day_is_thursday : weekday_of (738944 * day_length) ≡ 4
leap_day_is_thursday = refl

five_years_on :
    date_of_days (add_years 5 (738944 * day_length) / day_length)
    ≡ record { year = 2029; month = 3; day = 1 }
unfolding add_years date_of_days
five_years_on = refl
