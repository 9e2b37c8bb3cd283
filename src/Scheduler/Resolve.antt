-- ===== src/Scheduler/Resolve.antt =====
-- When a job runs next: cli/scheduler/resolve.go. Go's readers of times and durations are arguments.
pub mod Every
pub mod Later
use xclaw.Prelude.{
  ℕ, zero, suc, Bool, true, false, List, [], ◌∷◌, Option, none, some, String, str_eq, trim_space,
  to_lower, ltb, ◌==◌, if◌then◌else◌,
}
use xclaw.Prelude.Int.{ℤ, shift}
use xclaw.Scheduler.Calendar.{truncate_minute}
use xclaw.Scheduler.CronExpr.{CronError, CronExpr, Result, parse_cron}
use xclaw.Scheduler.Job.{CronJob}
use xclaw.Scheduler.Next.{match_time, next}

-- time.Parse and time.ParseInLocation for a layout, in UTC's and the local zone, and
-- time.ParseDuration.
pub record Readers : Type 0 where
  pub read_time : String → String → Option ℕ
  pub read_local_time : String → String → Option ℕ
  pub read_duration : String → Option ℤ

pub data ResolveError : Type 0 where
  invalid_duration : ResolveError
  invalid_at_time : String → ResolveError
  invalid_cron : CronError → ResolveError
  no_next_run : ResolveError

-- `running`: a loop has not ended within the rounds given.
pub data Outcome (A : Type 0) : Type 0 where
  ok : A → Outcome A
  err : ResolveError → Outcome A
  running : Outcome A

pub data ScheduleType : Type 0 where
  at every cron : ScheduleType

unfoldable pub schedule_type : String → ScheduleType
schedule_type raw =
    let s = to_lower (trim_space raw) in
    if str_eq s "at" then at else if str_eq s "every" then every else cron

abbrev pub formats : List String
formats =
    "2006-01-02T15:04:05.999999999Z07:00" ∷ "2006-01-02T15:04:05Z07:00" ∷ "2006-01-02T15:04:05"
    ∷ "2006-01-02 15:04:05" ∷ "2006-01-02T15:04" ∷ "2006-01-02 15:04" ∷ []

-- The loop over the layouts: each in UTC first, in the local zone then.
unfoldable pub first_format : Readers → String → List String → Outcome ℕ
first_format r raw [] = err (invalid_at_time raw)
first_format r raw (f ∷ fs) = elim (r.read_time f raw) [
  | some t ↦ ok t
  | none ↦ elim (r.read_local_time f raw) [ some t ↦ ok t | none ↦ first_format r raw fs ]
]

unfoldable pub parse_at_time : Readers → String → Outcome ℕ
parse_at_time r raw = first_format r (trim_space raw) formats

-- for next.Before(now) { next = next.Add(d) }
unfoldable pub advance_to : ℕ → ℤ → ℕ → ℕ → Outcome ℕ
advance_to zero d now t = running
advance_to (suc fuel) d now t =
    let rest = advance_to fuel d now (shift t d) in if ltb t now then rest else ok t

-- for !next.After(now) { next = next.Add(d) }
unfoldable pub advance_past : ℕ → ℤ → ℕ → ℕ → Outcome ℕ
advance_past zero d now t = running
advance_past (suc fuel) d now t =
    let rest = advance_past fuel d now (shift t d) in if ltb now t then ok t else rest

abbrev pub given_time : Option ℕ → Option ℕ
given_time none = none
given_time (some t) = if t == 0 then none else some t

abbrev pub base_time : CronJob → ℕ
base_time job = elim (given_time job.last_run_at) [ some t ↦ t | none ↦ job.created_at ]

unfoldable pub resolve_next_run : ℕ → Readers → CronJob → ℕ → Outcome ℕ
resolve_next_run fuel r job now = elim (given_time job.next_run_at) [
  | some t ↦ ok t
  | none ↦ elim (schedule_type job.schedule_type) [
    | at ↦ parse_at_time r job.schedule
    | every ↦ elim (r.read_duration (trim_space job.schedule)) [
      | none ↦ err invalid_duration
      | some d ↦ advance_to fuel d now (shift (base_time job) d)
    ]
    | cron ↦ elim (parse_cron job.schedule) [
      | Result.err e ↦ err (invalid_cron e)
      | Result.ok expr ↦
          let current = truncate_minute now in
          ok (if match_time expr current then current else next expr now)
    ]
  ]
]

abbrev pub some_next : Bool → Outcome ℕ → Outcome (Option ℕ × Bool)
some_next enabled (ok t) = ok (some t, enabled)
some_next enabled (err e) = err e
some_next enabled running = running

abbrev pub nonzero_next : ℕ → Outcome (Option ℕ × Bool)
nonzero_next t = if t == 0 then err no_next_run else ok (some t, true)

-- The next run and whether the job stays enabled.
unfoldable pub resolve_after_trigger : ℕ → Readers → CronJob → ℕ → ℕ → Outcome (Option ℕ × Bool)
resolve_after_trigger fuel r job due now = elim (schedule_type job.schedule_type) [
  | at ↦ ok (none, false)
  | every ↦ elim (r.read_duration (trim_space job.schedule)) [
    | none ↦ err invalid_duration
    | some d ↦ some_next true (advance_past fuel d now (shift due d))
  ]
  | cron ↦ elim (parse_cron job.schedule) [
    | Result.err e ↦ err (invalid_cron e)
    | Result.ok expr ↦ nonzero_next (next expr due)
  ]
]
