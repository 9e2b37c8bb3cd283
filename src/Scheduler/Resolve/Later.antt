-- ===== src/Scheduler/Resolve/Later.antt =====
-- A job is never scheduled again for the time that it has just been triggered for, or before.
use xclaw.Prelude.{
  ℕ, zero, suc, ◌+◌, ◌*◌, ◌≤◌, ◌<◌, ◌≡◌, refl, ap, sym, ◌∙◌, Bool, true, Option, none, some,
  trim_space, arith, ltb, Bool-cases, Option-cases, inl, inr, ltb→lt,
}
use xclaw.Prelude.Int.{ℤ, shift}
use xclaw.Scheduler.CronExpr.{Result, CronError, CronExpr, parse_cron}
use xclaw.Scheduler.Job.{CronJob}
use xclaw.Scheduler.Calendar.{minute_length}
use xclaw.Scheduler.Next.{next, first_minute}
use xclaw.Scheduler.Next.First.{next_sound}
use xclaw.Scheduler.Resolve.{
  Readers, Outcome, ok, err, running, ScheduleType, at, every, cron, advance_past, schedule_type,
  resolve_after_trigger, some_next, nonzero_next,
}

-- What holds of an outcome's time, if it has one.
unfoldable on_time : (ℕ → Bool) → Outcome (Option ℕ × Bool) → Bool
on_time p (ok (some t, enabled)) = p t
on_time p (ok (none, enabled)) = true
on_time p (err e) = true
on_time p running = true

advance_past-later :
    (fuel : ℕ) (d : ℤ) (due now t : ℕ)
    → due ≤ now
    → on_time (ltb due) (some_next true (advance_past fuel d now t)) ≡ true
unfolding advance_past on_time
advance_past-later zero d due now t before = refl
advance_past-later (suc fuel) d due now t before = elim (Bool-cases (ltb now t)) [
  | inl after ↦ rw after (ground arith)
  | inr early ↦ rw early (advance_past-later fuel d due now (shift t d) before)
]

first_minute-later : (from j : ℕ) → from < first_minute from + j * minute_length
first_minute-later from j = omega arith

cron-later : (c : CronExpr) (due : ℕ) → on_time (ltb due) (nonzero_next (next c due)) ≡ true
unfolding on_time
cron-later c due = elim (next_sound c due) [
  | inl zero_time ↦ rw zero_time refl
  | inr (j, (found, inside, hit)) ↦ let later = first_minute-later due j in rw found (ground arith)
]

after_trigger-later :
    (fuel : ℕ) (r : Readers) (job : CronJob) (due now : ℕ)
    → due ≤ now
    → on_time (ltb due) (resolve_after_trigger fuel r job due now) ≡ true
unfolding resolve_after_trigger on_time
after_trigger-later fuel r job due now before = by_kind (schedule_type job.schedule_type) refl
  where
    by_cron :
        (e : Result CronError CronExpr)
        → schedule_type job.schedule_type ≡ cron
        → parse_cron job.schedule ≡ e
        → on_time (ltb due) (resolve_after_trigger fuel r job due now) ≡ true
    by_cron (Result.ok c) kind e = rw (on_time, kind, e) (cron-later c due)
    by_cron (Result.err x) kind e = rw (on_time, kind, e) refl

    by_kind :
        (k : ScheduleType)
        → schedule_type job.schedule_type ≡ k
        → on_time (ltb due) (resolve_after_trigger fuel r job due now) ≡ true
    by_kind at kind = rw (on_time, kind) refl
    by_kind every kind = elim (Option-cases (r.read_duration (trim_space job.schedule))) [
      | inl e ↦ rw (on_time, kind, e) refl
      | inr (d, e) ↦ rw (on_time, kind, e) (advance_past-later fuel d due now (shift due d) before)
    ]
    by_kind cron kind = by_cron (parse_cron job.schedule) kind refl

-- What a job that was due is scheduled for next lies behind the time that it was due at, whatever its
-- kind of schedule.
pub rescheduled_later :
    (fuel : ℕ) (r : Readers) (job : CronJob) (due now t : ℕ) (enabled : Bool)
    → due ≤ now
    → resolve_after_trigger fuel r job due now ≡ ok (some t, enabled)
    → due < t
unfolding on_time
rescheduled_later fuel r job due now t enabled before e =
    ltb→lt due t (ap (on_time (ltb due)) (sym e) ∙ after_trigger-later fuel r job due now before)
