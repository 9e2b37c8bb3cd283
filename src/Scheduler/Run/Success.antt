-- ===== src/Scheduler/Run/Success.antt =====
-- A job succeeds with the first attempt that does.
use xclaw.Prelude.{
  ℕ, zero, suc, ◌+◌, ◌<◌, ◌≡◌, refl, ap, ◌∙◌, Bool, false, Option, none, some, String, arith,
}
use xclaw.Prelude.Int.{ℤ}
use xclaw.Scheduler.Run.{Run, success, retries, run_attempts, run_job}
use xclaw.Scheduler.Run.Attempts.{attempts, on_success, on_wait}

-- The k attempts from `attempt` on fail, and the waits behind them are not cut short.
abbrev pub AllFail : (ℕ → Option String) → (ℕ → Bool) → ℕ → ℕ → Type 0
AllFail answer ends attempt zero = Unit
AllFail answer ends attempt (suc k) =
    ((e : String) × (answer attempt ≡ some e))
    × (ends attempt ≡ false)
    × AllFail answer ends (attempt + 1) k

abbrev pub IsSuccess : ℕ → Run → Type 0
IsSuccess k run = (run.verdict ≡ success) × (attempts run.events ≡ suc k)

loop-IsSuccess :
    (answer : ℕ → Option String) (ends : ℕ → Bool) (left attempt k : ℕ) (last : String)
    → k < left
    → AllFail answer ends attempt k
    → answer (attempt + k) ≡ none
    → IsSuccess k (run_attempts answer ends left attempt last)
unfolding attempts
loop-IsSuccess answer ends zero attempt k last enough fails good = ground arith
loop-IsSuccess answer ends (suc left) attempt zero last enough fails good =
    let same : attempt ≡ attempt + 0 = omega arith in
    rw (on_success answer ends left attempt last (ap answer same ∙ good)) (refl, refl)
loop-IsSuccess answer ends (suc zero) attempt (suc k) last enough fails good = ground arith
loop-IsSuccess answer ends (suc (suc left)) attempt (suc k) last enough ((e, failed), on, fails)
      good =
    let same : attempt + 1 + k ≡ attempt + suc k = omega arith in
    let (verdict, count) =
      loop-IsSuccess answer ends (suc left) (attempt + 1) k e (omega arith) fails
        (ap answer same ∙ good) in
    rw (on_wait answer ends left attempt last e failed on) (verdict, ap suc count)

-- If the first k attempts fail, the context does not end in the waits behind them, and the next
-- attempt succeeds and is one of the job's retries, then runJob succeeds with that attempt.
pub run_job-IsSuccess :
    (answer : ℕ → Option String) (ends : ℕ → Bool) (limit : ℤ) (k : ℕ)
    → k < retries limit
    → AllFail answer ends 1 k
    → answer (suc k) ≡ none
    → IsSuccess k (run_job answer ends limit)
unfolding run_job
run_job-IsSuccess answer ends limit k enough fails good =
    let same : 1 + k ≡ suc k = omega arith in
    loop-IsSuccess answer ends (retries limit) 1 k "" enough fails (ap answer same ∙ good)
