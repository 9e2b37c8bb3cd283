-- ===== src/Scheduler/Tick.antt =====
-- One round of the scheduler: `tick`, `resolveLane`, `isTriggered` and `setTriggered` of
-- cli/scheduler/scheduler.go. What a round does to the store, the log and the queue are its effects.
pub mod Triggers
use xclaw.Prelude.{
  ℕ, Bool, true, false, ◌&&◌, ◌||◌, not, List, [], ◌∷◌, ◌++◌, Option, none, some, String, str_eq,
  trim_space, ltb, ◌==◌, if◌then◌else◌, ◌<>◌,
}
use xclaw.Prelude.Dict as Dict
use xclaw.Prelude.Dict.{Dict}
use xclaw.Scheduler.Job.{CronJob}
use xclaw.Scheduler.Resolve.{
  Readers, ResolveError, Outcome, ok, err, running, resolve_next_run, resolve_after_trigger,
}

-- A log entry, a call of UpdateCronScheduleState, or a task put on a lane: the job as runJob gets it,
-- with the time that it is due at.
pub data Effect : Type 0 where
  scan_failed : Effect
  invalid_schedule : String → ResolveError → Effect
  resolve_next_failed : String → ResolveError → Effect
  update_state : String → Option ℕ → Bool → Effect
  enqueue : String → ℕ → CronJob → Effect

unfoldable pub resolve_lane : CronJob → String
resolve_lane job =
    let target = trim_space job.target_channel in
    let mode = trim_space job.execution_mode in
    let session = trim_space job.session_id in
    if not (str_eq target "") && not (str_eq target "last")
    then "gateway:" <> target
    else if str_eq mode "main"
    then "agent:" <> (job.agent_id <> ":main")
    else if str_eq mode "custom"
    then (if str_eq session ""
        then "agent:" <> (job.agent_id <> ":custom")
        else "session:" <> session)
    else "cron:" <> job.agent_id

-- The map lastTrigger. A stamp is the instant in place of its text, which tells instants apart; a
-- missing entry is the empty text, no stamp's.
unfoldable pub is_triggered : String → ℕ → Dict ℕ → Bool
is_triggered id stamp last = elim (Dict.lookup id last) [ none ↦ false | some t ↦ t == stamp ]

unfoldable pub set_triggered : String → ℕ → Dict ℕ → Dict ℕ
set_triggered id stamp last = Dict.insert id stamp last

-- From the second resolution on; `none` if its loop has not ended.
unfoldable pub trigger : CronJob → ℕ → Outcome (Option ℕ × Bool) → Option (List Effect)
trigger job due (ok (next, enabled)) = some (
    update_state job.id next enabled
    ∷ enqueue (resolve_lane job) due (record job { next_run_at = next; enabled = enabled })
    ∷ [])
trigger job due (err e) =
    some (resolve_next_failed job.id e ∷ enqueue (resolve_lane job) due job ∷ [])
trigger job due running = none

abbrev pub with_triggered : Dict ℕ → Option (List Effect) → Option (List Effect × Dict ℕ)
with_triggered last none = none
with_triggered last (some effects) = some (effects, last)

-- The body of the loop over the jobs, for a next run that is resolved.
unfoldable pub tick_due :
    ℕ → Readers → ℕ → CronJob → Dict ℕ → Outcome ℕ → Option (List Effect × Dict ℕ)
tick_due fuel r now job last running = none
tick_due fuel r now job last (err e) = some (invalid_schedule job.id e ∷ [], last)
tick_due fuel r now job last (ok due) =
    if (due == 0 || ltb now due) || is_triggered job.id due last
    then some ([], last)
    else with_triggered (set_triggered job.id due last)
        (trigger job due (resolve_after_trigger fuel r job due now))

unfoldable pub tick_job : ℕ → Readers → ℕ → CronJob → Dict ℕ → Option (List Effect × Dict ℕ)
tick_job fuel r now job last = tick_due fuel r now job last (resolve_next_run fuel r job now)

abbrev pub then_effects :
    Option (List Effect × Dict ℕ)
    → (Dict ℕ → Option (List Effect × Dict ℕ))
    → Option (List Effect × Dict ℕ)
then_effects none rest = none
then_effects (some (effects, last)) rest = elim (rest last) [
  | none ↦ none
  | some (more, last') ↦ some (effects ++ more, last')
]

unfoldable pub tick_jobs : ℕ → Readers → ℕ → List CronJob → Dict ℕ → Option (List Effect × Dict ℕ)
tick_jobs fuel r now [] last = some ([], last)
tick_jobs fuel r now (job ∷ jobs) last =
    then_effects (tick_job fuel r now job last) (tick_jobs fuel r now jobs)

-- `listed` is what ListCronJobs gives for the enabled jobs, if it does not fail.
unfoldable pub tick :
    ℕ → Readers → ℕ → Option (List CronJob) → Dict ℕ → Option (List Effect × Dict ℕ)
tick fuel r now none last = some (scan_failed ∷ [], last)
tick fuel r now (some jobs) last = tick_jobs fuel r now jobs last

-- The loop of Start: one round after the other, each with its clock reading and its listing.
unfoldable pub ticks :
    ℕ → Readers → List (ℕ × Option (List CronJob)) → Dict ℕ → Option (List Effect × Dict ℕ)
ticks fuel r [] last = some ([], last)
ticks fuel r ((now, listed) ∷ rounds) last =
    then_effects (tick fuel r now listed last) (ticks fuel r rounds)
