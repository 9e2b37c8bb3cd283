-- ===== src/Scheduler/Resolve/Every.antt =====
-- The loop that steps a repeating job past the present.
use xclaw.Prelude.{
  ℕ, zero, suc, ◌+◌, ◌-◌, ◌*◌, ◌≤◌, ◌<◌, ◌≡◌, refl, true, some, trim_space, arith, ltb, Bool-cases,
  inl, inr, ltb→lt, ◌⊎◌, ◌∙◌,
}
use xclaw.Prelude.Int.{ℤ, pos, negsuc, shift, leb_ℕ}
use xclaw.Scheduler.Job.{CronJob}
use xclaw.Scheduler.Resolve.{
  Readers, ok, running, every, advance_past, schedule_type, resolve_after_trigger,
}

advance_here : (fuel : ℕ) (d : ℤ) (now t : ℕ) → now < t → advance_past (suc fuel) d now t ≡ ok t
unfolding advance_past
advance_here fuel d now t after = ground arith

advance_on :
    (fuel : ℕ) (d : ℤ) (now t : ℕ)
    → t ≤ now
    → advance_past (suc fuel) d now t ≡ advance_past fuel d now (shift t d)
unfolding advance_past
advance_on fuel d now t before = ground arith

-- The first of t, t + d, t + 2d, ... behind `now`.
abbrev pub IsFirstPast : ℕ → ℕ → ℕ → ℕ → Type 0
IsFirstPast d now t found =
    (now < found) × ((k : ℕ) × (found ≡ t + k * d) × ((k ≡ 0) ⊎ (found ≤ now + d)))

advance_first :
    (fuel d now t : ℕ)
    → 0 < d
    → now < t + fuel
    → (found : ℕ) × (advance_past (suc fuel) (pos d) now t ≡ ok found) × IsFirstPast d now t found
advance_first zero d now t step enough =
    (t, advance_here zero (pos d) now t (omega arith), (omega arith, (0, omega arith, inl refl)))
advance_first (suc fuel) d now t step enough = elim (Bool-cases (ltb now t)) [
  | inl after ↦ (
    t,
    advance_here (suc fuel) (pos d) now t (ltb→lt now t after),
    (ltb→lt now t after, (0, omega arith, inl refl)),
  )
  | inr before ↦
      let (found, e, (past, (k, at_k, least))) =
        advance_first fuel d now (t + d) step (omega arith) in
      (
        found,
        advance_on (suc fuel) (pos d) now t (ground arith) ∙ e,
        (past, (suc k, omega arith, inr (ground arith))),
      )
]

advance_stuck : (fuel now t : ℕ) → t ≤ now → advance_past fuel (pos 0) now t ≡ running
unfolding advance_past
advance_stuck zero now t before = refl
advance_stuck (suc fuel) now t before =
    advance_on fuel (pos 0) now t before ∙ advance_stuck fuel now (t + 0) (omega arith)

advance_back : (fuel n now t : ℕ) → t ≤ now → advance_past fuel (negsuc n) now t ≡ running
unfolding advance_past
advance_back zero n now t before = refl
advance_back (suc fuel) n now t before =
    advance_on fuel (negsuc n) now t before ∙ advance_back fuel n now (t - suc n) (omega arith)

-- A repeating job whose interval is positive runs next at the first of due + d, due + 2d, ... that lies
-- behind the present, if the loop is given a round for every nanosecond of the delay.
pub every_next :
    (fuel : ℕ) (r : Readers) (job : CronJob) (due now d : ℕ)
    → schedule_type job.schedule_type ≡ every
    → r.read_duration (trim_space job.schedule) ≡ some (pos d)
    → 0 < d
    → now < due + d + fuel
    → (found : ℕ) × (resolve_after_trigger (suc fuel) r job due now ≡ ok (some found, true))
      × IsFirstPast d now (due + d) found
unfolding resolve_after_trigger
every_next fuel r job due now d kind length step enough =
    let (found, e, first) = advance_first fuel d now (due + d) step enough in
    (found, rw (resolve_after_trigger, kind, length, e) refl, first)

-- An interval that is not positive, for a job that is due, keeps the loop running for ever: no number
-- of rounds is enough.
pub every_hangs :
    (fuel : ℕ) (r : Readers) (job : CronJob) (due now : ℕ) (d : ℤ)
    → schedule_type job.schedule_type ≡ every
    → r.read_duration (trim_space job.schedule) ≡ some d
    → leb_ℕ d 0 ≡ true
    → due ≤ now
    → resolve_after_trigger fuel r job due now ≡ running
unfolding resolve_after_trigger
every_hangs fuel r job due now (pos zero) kind length back before =
    rw (resolve_after_trigger, kind, length, advance_stuck fuel now (due + 0) (omega arith)) refl
every_hangs fuel r job due now (pos (suc n)) kind length back before = ground arith
every_hangs fuel r job due now (negsuc n) kind length back before =
    rw (resolve_after_trigger, kind, length, advance_back fuel n now (due - suc n) (omega arith))
      refl
