-- ===== src/Scheduler/Examples.antt =====
-- Concrete schedules and jobs.
use xclaw.Prelude.{
  ℕ, ◌+◌, ◌*◌, ◌≤◌, ◌<◌, ◌≡◌, refl, true, false, [], ◌∷◌, Option, none, some, String, arith, ◌==◌,
  trim_space, to_lower, str_eq, if◌then◌else◌,
}
use xclaw.Prelude.Int.{pos}
use xclaw.Prelude.Dict
use xclaw.Prelude.Parse.{split, split_once, fields, atoi}
use xclaw.Scheduler.Calendar.{second, date_of_days, days_of_date, add_years}
use xclaw.Scheduler.CronExpr.{
  CronExpr, parse_field, parse_cron, parse_segments, parse_segment, parse_base, parse_range,
  every_step, stepped, contains, pick, range_from, parse_parts,
}
use xclaw.Scheduler.CronExpr.Fields.{is_cron, parse_cron-is_cron}
use xclaw.Scheduler.Next.{match_time, next, first_minute, deadline_of}
use xclaw.Scheduler.Next.First.{IsHit, next_first}
use xclaw.Scheduler.Job.{CronJob}
use xclaw.Scheduler.Resolve.{
  Readers, ok, running, schedule_type, resolve_next_run, resolve_after_trigger, advance_to,
  advance_past,
}
use xclaw.Scheduler.Resolve.Every.{every_next, every_hangs, IsFirstPast}
use xclaw.Scheduler.Resolve.Later.{rescheduled_later}
use xclaw.Scheduler.Tick.{
  ticks, tick, tick_jobs, tick_job, tick_due, trigger, is_triggered, set_triggered, resolve_lane,
  update_state, enqueue,
}
use xclaw.Scheduler.Tick.Triggers.{times_of, no_stutter, ticks-no_stutter}
use xclaw.Scheduler.Run.{run_job, retries}
use xclaw.Scheduler.Run.Attempts.{
  attempts, total_wait, results, expected, run_job_bounds, results-run_job,
}
use xclaw.Scheduler.Run.Success.{IsSuccess, run_job-IsSuccess}

parse_cron-is_cron_example :
    is_cron (record {
      minute = 0 ∷ 30 ∷ [];
      hour = 9 ∷ 13 ∷ 17 ∷ [];
      dom = range_from 31 1;
      month = 1 ∷ 6 ∷ [];
      dow = 1 ∷ 2 ∷ 3 ∷ 4 ∷ 5 ∷ [];
    })
    ≡ true
unfolding parse_cron parse_parts fields parse_field parse_segments parse_segment parse_base
    parse_range every_step stepped contains pick range_from split split_once trim_space atoi
parse_cron-is_cron_example =
    parse_cron-is_cron "*/30 9-17/4 * 6,1 1-5"
      (record {
        minute = 0 ∷ 30 ∷ [];
        hour = 9 ∷ 13 ∷ 17 ∷ [];
        dom = range_from 31 1;
        month = 1 ∷ 6 ∷ [];
        dow = 1 ∷ 2 ∷ 3 ∷ 4 ∷ 5 ∷ [];
      })
      refl

-- Five minutes past every hour.
abbrev hourly : CronExpr
hourly = record {
  minute = 5 ∷ [];
  hour = 0 ∷ 1 ∷ 2 ∷ [];
  dom = 1 ∷ 2 ∷ [];
  month = 1 ∷ [];
  dow = 1 ∷ 2 ∷ [];
}

next_first_example :
    (j : ℕ) × (j ≤ 4) × IsHit hourly (deadline_of 0) (first_minute 0) j (next hourly 0)
unfolding match_time contains add_years date_of_days days_of_date
next_first_example = next_first hourly 0 4 (omega arith) refl

abbrev readers : Readers
readers = record {
  read_time = λ layout text. none;
  read_local_time = λ layout text. none;
  read_duration = λ text.
      if str_eq text "10s"
      then some (pos (10 * second))
      else if str_eq text "0s"
      then some (pos 0)
      else none;
}

abbrev repeating : String → CronJob
repeating schedule = record {
  id = "j";
  agent_id = "a";
  name = "n";
  schedule = schedule;
  schedule_type = "Every";
  job_type = "";
  payload = "";
  execution_mode = "main";
  session_id = "";
  target_channel = "last";
  priority = "";
  enabled = true;
  retry_limit = pos 2;
  last_run_at = none;
  next_run_at = some (60 * second);
  last_status = "";
  last_error = "";
  created_at = second;
  updated_at = second;
}

every_next_example :
    (found : ℕ) × (resolve_after_trigger
        (25 * second + 1)
        readers
        (repeating " 10s ")
        (60 * second)
        (85 * second)
      ≡ ok (some found, true))
    × IsFirstPast (10 * second) (85 * second) (70 * second) found
unfolding schedule_type trim_space to_lower
every_next_example =
    every_next (25 * second) readers (repeating " 10s ") (60 * second) (85 * second) (10 * second)
      refl refl (omega arith) (omega arith)

every_hangs_example :
    resolve_after_trigger 1000 readers (repeating "0s") (60 * second) (85 * second) ≡ running
unfolding schedule_type trim_space to_lower
every_hangs_example =
    every_hangs 1000 readers (repeating "0s") (60 * second) (85 * second) (pos 0) refl refl refl
      (omega arith)

rescheduled_later_example : 60 * second < 90 * second
unfolding resolve_after_trigger advance_past schedule_type trim_space to_lower
rescheduled_later_example =
    rescheduled_later 9 readers (repeating "10s") (60 * second) (85 * second) (90 * second) true
      (omega arith) refl

-- The store lists the job as it was twice, and then with its new time.
ticks-no_stutter_example : no_stutter none (60 * second ∷ 90 * second ∷ []) ≡ true
unfolding ticks tick tick_jobs tick_job tick_due trigger is_triggered set_triggered resolve_next_run
    resolve_after_trigger advance_to advance_past schedule_type trim_space to_lower resolve_lane
    times_of Dict.lookup Dict.insert
ticks-no_stutter_example =
    ticks-no_stutter 9 readers
      ((85 * second, some (repeating "10s" ∷ []))
        ∷ (86 * second, some (repeating "10s" ∷ []))
        ∷ (95 * second, some (record (repeating "10s") { next_run_at = some (90 * second) } ∷ []))
        ∷ [])
      [] (("j", 90 * second) ∷ [])
      (update_state "j" (some (90 * second)) true
        ∷ enqueue "agent:a:main" (60 * second)
            (record (repeating "10s") { next_run_at = some (90 * second) })
        ∷ update_state "j" (some (100 * second)) true
        ∷ enqueue "agent:a:main" (90 * second)
            (record (repeating "10s") { next_run_at = some (100 * second) })
        ∷ [])
      "j" refl

-- A runner that fails twice.
abbrev flaky : ℕ → Option String
flaky n = if n == 3 then none else some "busy"

run_job_bounds_example :
    (attempts (run_job flaky (λ n. false) (pos 9)).events ≤ 5)
    × (total_wait (run_job flaky (λ n. false) (pos 9)).events ≤ 18 * second)
run_job_bounds_example = run_job_bounds flaky (λ n. false) (pos 9)

results-run_job_example :
    results (run_job flaky (λ n. n == 2) (pos 9)).events
    ≡ expected (run_job flaky (λ n. n == 2) (pos 9)).verdict
results-run_job_example = results-run_job flaky (λ n. n == 2) (pos 9)

run_job-IsSuccess_example : IsSuccess 2 (run_job flaky (λ n. false) (pos 0))
unfolding retries
run_job-IsSuccess_example =
    run_job-IsSuccess flaky (λ n. false) (pos 0) 2 (omega arith)
      (("busy", refl), refl, (("busy", refl), refl, tt)) refl
