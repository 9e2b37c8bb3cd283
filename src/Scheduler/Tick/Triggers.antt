-- ===== src/Scheduler/Tick/Triggers.antt =====
-- What the scheduler puts on its lanes.
use xclaw.Prelude.{
  ℕ, ◌≡◌, refl, ap, sym, ◌∙◌, Bool, true, false, ◌&&◌, ◌||◌, not, List, [], ◌∷◌, ◌++◌, Option, none,
  some, String, str_eq, arith, ltb, ◌==◌, Bool-cases, Option-cases, inl, inr, if◌then◌else◌, eq_iff,
}
use xclaw.Prelude.Dict as Dict
use xclaw.Prelude.Dict.{Dict}
use xclaw.Scheduler.Resolve.{
  Outcome, ok, err, running, Readers, resolve_after_trigger, resolve_next_run,
}
use mathlib.Core.Path.{subst}
use xclaw.Scheduler.Job.{CronJob}
use xclaw.Scheduler.Tick.{
  Effect, scan_failed, invalid_schedule, resolve_next_failed, update_state, enqueue, then_effects,
  with_triggered, is_triggered, set_triggered, trigger, tick_due, tick_job, tick_jobs, tick, ticks,
}

-- The times that the tasks of a job were due at, in the order of the effects.
unfoldable pub times_of : String → List Effect → List ℕ
times_of id [] = []
times_of id (enqueue lane due job ∷ effects) =
    let rest = times_of id effects in if str_eq job.id id then due ∷ rest else rest
times_of id (e ∷ effects) = times_of id effects

-- No time follows itself, nor the one before the first.
unfoldable pub no_stutter : Option ℕ → List ℕ → Bool
no_stutter last [] = true
no_stutter none (t ∷ times) = no_stutter (some t) times
no_stutter (some s) (t ∷ times) = not (s == t) && no_stutter (some t) times

unfoldable last_of : Option ℕ → List ℕ → Option ℕ
last_of last [] = last
last_of last (t ∷ times) = last_of (some t) times

no_stutter-append :
    (last : Option ℕ) (a b : List ℕ)
    → no_stutter last a ≡ true
    → no_stutter (last_of last a) b ≡ true
    → no_stutter last (a ++ b) ≡ true
unfolding no_stutter last_of
no_stutter-append last [] b g h = h
no_stutter-append none (t ∷ a) b g h = no_stutter-append (some t) a b g h
no_stutter-append (some s) (t ∷ a) b g h =
    let rest = no_stutter-append (some t) a b (ground arith) h in ground arith

last_of-append :
    (last : Option ℕ) (a b : List ℕ) → last_of last (a ++ b) ≡ last_of (last_of last a) b
unfolding last_of
last_of-append last [] b = refl
last_of-append last (t ∷ a) b = last_of-append (some t) a b

times_of-append :
    (id : String) (a b : List Effect) → times_of id (a ++ b) ≡ times_of id a ++ times_of id b
unfolding times_of
times_of-append id [] b = refl
times_of-append id (enqueue lane due job ∷ a) b = let rest = times_of-append id a b in ground arith
times_of-append id (scan_failed ∷ a) b = times_of-append id a b
times_of-append id (invalid_schedule x e ∷ a) b = times_of-append id a b
times_of-append id (resolve_next_failed x e ∷ a) b = times_of-append id a b
times_of-append id (update_state x t e ∷ a) b = times_of-append id a b

-- The effects of a step, and what lastTrigger holds before and behind it.
abbrev Follows : String → Dict ℕ → List Effect × Dict ℕ → Type 0
Follows id last (effects, last') =
    (no_stutter (Dict.lookup id last) (times_of id effects) ≡ true)
    × (Dict.lookup id last' ≡ last_of (Dict.lookup id last) (times_of id effects))

-- What holds of a step that ends.
abbrev Ends : (List Effect × Dict ℕ → Type 0) → Option (List Effect × Dict ℕ) → Type 0
Ends P none = Unit
Ends P (some step) = P step

then_effects-Follows :
    (id : String) (last : Dict ℕ) (first : Option (List Effect × Dict ℕ))
    (rest : Dict ℕ → Option (List Effect × Dict ℕ))
    → Ends (Follows id last) first
    → ((between : Dict ℕ) → Ends (Follows id between) (rest between))
    → Ends (Follows id last) (then_effects first rest)
then_effects-Follows id last none rest f g = f
then_effects-Follows id last (some (a, between)) rest (apart, held) g =
    go (rest between) (g between)
  where
    go :
        (step : Option (List Effect × Dict ℕ))
        → Ends (Follows id between) step
        → Ends
            (Follows id last)
            (elim step [ none ↦ none | some (more, last') ↦ some (a ++ more, last') ])
    go none h = h
    go (some (b, last')) (apart', held') =
        let same = ap (λ (l : Option ℕ). no_stutter l (times_of id b)) (sym held) ∙ apart' in
        (
          rw (times_of-append id a b)
              (no_stutter-append (Dict.lookup id last) (times_of id a) (times_of id b) apart same),
          rw
              (
                times_of-append id a b,
                last_of-append (Dict.lookup id last) (times_of id a) (times_of id b),
              )
              (held' ∙ ap (λ (l : Option ℕ). last_of l (times_of id b)) held),
        )

fresh-no_stutter :
    (id : String) (last : Dict ℕ) (due : ℕ)
    → is_triggered id due last ≡ false
    → no_stutter (Dict.lookup id last) (due ∷ []) ≡ true
unfolding is_triggered no_stutter
fresh-no_stutter id last due fresh = elim (Option-cases (Dict.lookup id last)) [
  | inl e ↦ rw e refl
  | inr (t, e) ↦ rw e (
      ground
        (arith, ap (λ (o : Option ℕ). elim o [ none ↦ false | some t ↦ t == due ]) (sym e) ∙ fresh))
]

-- A step that puts one task on a lane, for a time that is not the job's last.
one_task :
    (id : String) (last : Dict ℕ) (job : CronJob) (due : ℕ)
    → is_triggered job.id due last ≡ false
    → (no_stutter (Dict.lookup id last) (if str_eq job.id id then due ∷ [] else []) ≡ true)
      × (Dict.lookup id (set_triggered job.id due last)
          ≡ last_of (Dict.lookup id last) (if str_eq job.id id then due ∷ [] else []))
unfolding is_triggered set_triggered no_stutter last_of
one_task id last job due fresh = elim (Bool-cases (str_eq job.id id)) [
  | inr other ↦ rw other (refl, rw (Dict.lookup-insert job.id id due last, other) refl)
  | inl same ↦ rw same (
    fresh-no_stutter id last due
        (ap (λ (k : String). is_triggered k due last) (sym ((eq_iff job.id id).0 same)) ∙ fresh),
    rw (Dict.lookup-insert job.id id due last, same) refl,
  )
]

trigger-Follows :
    (id : String) (last : Dict ℕ) (job : CronJob) (due : ℕ) (after : Outcome (Option ℕ × Bool))
    → is_triggered job.id due last ≡ false
    → Ends
        (Follows id last)
        (with_triggered (set_triggered job.id due last) (trigger job due after))
unfolding trigger times_of
trigger-Follows id last job due (ok (next, enabled)) fresh = one_task id last job due fresh
trigger-Follows id last job due (err e) fresh = one_task id last job due fresh
trigger-Follows id last job due running fresh = tt

due-Follows :
    (fuel : ℕ) (r : Readers) (now : ℕ) (id : String) (job : CronJob) (last : Dict ℕ)
    (next : Outcome ℕ)
    → Ends (Follows id last) (tick_due fuel r now job last next)
unfolding tick_due times_of no_stutter last_of
due-Follows fuel r now id job last running = tt
due-Follows fuel r now id job last (err e) = (refl, refl)
due-Follows fuel r now id job last (ok due) = elim (Bool-cases (due == 0 || ltb now due)) [
  | inl not_due ↦ rw not_due (refl, refl)
  | inr is_due ↦ elim (Bool-cases (is_triggered job.id due last)) [
    | inl done ↦ rw (is_due, done) (refl, refl)
    | inr fresh ↦
        rw (is_due, fresh)
          (trigger-Follows id last job due (resolve_after_trigger fuel r job due now) fresh)
  ]
]

jobs-Follows :
    (fuel : ℕ) (r : Readers) (now : ℕ) (id : String) (jobs : List CronJob) (last : Dict ℕ)
    → Ends (Follows id last) (tick_jobs fuel r now jobs last)
unfolding tick_jobs tick_job times_of no_stutter last_of
jobs-Follows fuel r now id [] last = (refl, refl)
jobs-Follows fuel r now id (job ∷ jobs) last =
    then_effects-Follows id last (tick_job fuel r now job last) (tick_jobs fuel r now jobs)
      (due-Follows fuel r now id job last (resolve_next_run fuel r job now))
      (jobs-Follows fuel r now id jobs)

ticks-Follows :
    (fuel : ℕ) (r : Readers) (id : String) (rounds : List (ℕ × Option (List CronJob)))
    (last : Dict ℕ)
    → Ends (Follows id last) (ticks fuel r rounds last)
unfolding ticks tick times_of no_stutter last_of
ticks-Follows fuel r id [] last = (refl, refl)
ticks-Follows fuel r id ((now, none) ∷ rounds) last =
    then_effects-Follows id last (tick fuel r now none last) (ticks fuel r rounds) (refl, refl)
      (ticks-Follows fuel r id rounds)
ticks-Follows fuel r id ((now, some jobs) ∷ rounds) last =
    then_effects-Follows id last (tick fuel r now (some jobs) last) (ticks fuel r rounds)
      (jobs-Follows fuel r now id jobs last) (ticks-Follows fuel r id rounds)

-- Over any rounds of the scheduler, whatever the store lists in each, no two tasks of a job that follow
-- one another are for the same time, and neither is the first for the time that lastTrigger held.
pub ticks-no_stutter :
    (fuel : ℕ) (r : Readers) (rounds : List (ℕ × Option (List CronJob))) (last last' : Dict ℕ)
    (effects : List Effect) (id : String)
    → ticks fuel r rounds last ≡ some (effects, last')
    → no_stutter (Dict.lookup id last) (times_of id effects) ≡ true
ticks-no_stutter fuel r rounds last last' effects id e =
    (subst (Ends (Follows id last)) e (ticks-Follows fuel r id rounds last)).0
