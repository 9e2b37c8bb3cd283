-- ===== src/Scheduler/CronExpr/Tests.antt =====
-- Cron fields that can be followed in the source.
use xclaw.Prelude.{◌≡◌, refl, [], ◌∷◌, trim_space}
use xclaw.Prelude.Parse.{split, split_once, atoi}
use xclaw.Scheduler.CronExpr.{
  ok, err, range_out_of_bounds, parse_field, parse_segments, parse_segment, parse_base, parse_range,
  every_step, stepped, contains, pick, range_from,
}

every_quarter : parse_field "*/15" 0 59 ≡ ok (0 ∷ 15 ∷ 30 ∷ 45 ∷ [])
unfolding parse_field parse_segments parse_segment parse_base parse_range every_step stepped
    contains pick range_from split split_once trim_space atoi
every_quarter = refl

mixed : parse_field "9-17/4,3,,3" 0 23 ≡ ok (3 ∷ 9 ∷ 13 ∷ 17 ∷ [])
unfolding parse_field parse_segments parse_segment parse_base parse_range every_step stepped
    contains pick range_from split split_once trim_space atoi
mixed = refl

sunday_is_zero : parse_field "5-7" 0 6 ≡ err (range_out_of_bounds "5-7")
unfolding parse_field parse_segments parse_segment parse_base parse_range every_step stepped
    contains pick range_from split split_once trim_space atoi
sunday_is_zero = refl

-- The step wraps around in 64 bits, and the loop comes back to smaller minutes.
wrapped_step : parse_field "6-6/9223372036854775807" 0 59 ≡ ok (0 ∷ 2 ∷ 4 ∷ 6 ∷ [])
unfolding parse_field parse_segments parse_segment parse_base parse_range every_step stepped
    contains pick range_from split split_once trim_space atoi
wrapped_step = refl
