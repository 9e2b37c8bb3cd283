-- ===== src/Scheduler/Run/Attempts.antt =====
-- How often a job is tried, and what is stored of it.
use xclaw.Prelude.{
  ℕ, zero, suc, ◌+◌, ◌*◌, ◌≤◌, ◌<◌, ◌≡◌, refl, Bool, true, false, List, [], ◌∷◌, Option, none, some,
  String, arith, Bool-cases, Option-cases, inl, inr, ◌==◌,
}
use xclaw.Prelude.Int.{ℤ, pos, negsuc}
use xclaw.Scheduler.Calendar.{second}
use xclaw.Scheduler.Run.{
  RunEvent, attempted, logged_retry, waited, stored_success, stored_failure, Verdict, success,
  failure, cancelled, Run, retries, backoff, before, run_attempts, run_job,
}

retries_bounds : (limit : ℤ) → (0 < retries limit) × (retries limit ≤ 5)
unfolding retries
retries_bounds (pos zero) = (omega arith, omega arith)
retries_bounds (pos (suc n)) = (ground arith, ground arith)
retries_bounds (negsuc n) = (omega arith, omega arith)

-- The calls of the runner and the time waited in between.
unfoldable pub attempts : List RunEvent → ℕ
attempts [] = 0
attempts (attempted n ∷ events) = suc (attempts events)
attempts (e ∷ events) = attempts events

unfoldable pub total_wait : List RunEvent → ℕ
total_wait [] = 0
total_wait (waited d ∷ events) = d + total_wait events
total_wait (e ∷ events) = total_wait events

-- The results that are stored.
unfoldable pub results : List RunEvent → List Verdict
results [] = []
results (stored_success n ∷ events) = success ∷ results events
results (stored_failure e ∷ events) = failure e ∷ results events
results (e ∷ events) = results events

-- The waits behind all attempts but the last, of `left` from `attempt` on.
budget : ℕ → ℕ → ℕ
budget zero attempt = 0
budget (suc zero) attempt = 0
budget (suc (suc left)) attempt = backoff attempt + budget (suc left) (attempt + 1)

abbrev pub expected : Verdict → List Verdict
expected success = success ∷ []
expected (failure e) = failure e ∷ []
expected cancelled = []

not_zero : (n : ℕ) → (suc n == 0) ≡ false
not_zero n = ground arith

module _ (answer : ℕ → Option String) (ends : ℕ → Bool) where
  pub on_success :
      (left attempt : ℕ) (last : String)
      → answer attempt ≡ none
      → run_attempts answer ends (suc left) attempt last
        ≡ record { events = attempted attempt ∷ stored_success attempt ∷ []; verdict = success }
  unfolding run_attempts
  on_success left attempt last e = rw (run_attempts, e) refl

  on_last :
      (attempt : ℕ) (last e : String)
      → answer attempt ≡ some e
      → run_attempts answer ends 1 attempt last ≡ record {
        events = attempted attempt ∷ logged_retry attempt e ∷ stored_failure e ∷ [];
        verdict = failure e;
      }
  unfolding run_attempts
  on_last attempt last e failed = rw (run_attempts, failed) refl

  on_cancel :
      (left attempt : ℕ) (last e : String)
      → answer attempt ≡ some e
      → ends attempt ≡ true
      → run_attempts answer ends (suc (suc left)) attempt last
        ≡ record { events = attempted attempt ∷ logged_retry attempt e ∷ []; verdict = cancelled }
  unfolding run_attempts
  on_cancel left attempt last e failed stop = rw (run_attempts, failed, not_zero left, stop) refl

  pub on_wait :
      (left attempt : ℕ) (last e : String)
      → answer attempt ≡ some e
      → ends attempt ≡ false
      → run_attempts answer ends (suc (suc left)) attempt last
        ≡ before
            (attempted attempt ∷ logged_retry attempt e ∷ waited (backoff attempt) ∷ [])
            (run_attempts answer ends (suc left) (attempt + 1) e)
  unfolding run_attempts
  on_wait left attempt last e failed on = rw (run_attempts, failed, not_zero left, on) refl

  -- To prove a property of the loop, one goes through its four ways on.
  by_ways :
      (P : ℕ → ℕ → Run → Type 0)
      → ((attempt : ℕ) (last : String)
          → P 0 attempt (record { events = stored_failure last ∷ []; verdict = failure last }))
      → ((left attempt : ℕ)
          → P (suc left) attempt (record {
            events = attempted attempt ∷ stored_success attempt ∷ [];
            verdict = success;
          }))
      → ((attempt : ℕ) (e : String)
          → P 1 attempt (record {
            events = attempted attempt ∷ logged_retry attempt e ∷ stored_failure e ∷ [];
            verdict = failure e;
          }))
      → ((left attempt : ℕ) (e : String)
          → P (suc (suc left)) attempt (record {
            events = attempted attempt ∷ logged_retry attempt e ∷ [];
            verdict = cancelled;
          }))
      → ((left attempt : ℕ) (e : String) (run : Run)
          → P (suc left) (attempt + 1) run
          → P (suc (suc left)) attempt (
              before
                (attempted attempt ∷ logged_retry attempt e ∷ waited (backoff attempt) ∷ [])
                run))
      → (left attempt : ℕ) (last : String)
      → P left attempt (run_attempts answer ends left attempt last)
  unfolding run_attempts
  by_ways P none_left succeeds fails stops waits zero attempt last = none_left attempt last
  by_ways P none_left succeeds fails stops waits (suc zero) attempt last =
      elim (Option-cases (answer attempt)) [
        | inl e ↦ rw (on_success zero attempt last e) (succeeds zero attempt)
        | inr (x, e) ↦ rw (on_last attempt last x e) (fails attempt x)
      ]
  by_ways P none_left succeeds fails stops waits (suc (suc left)) attempt last =
      elim (Option-cases (answer attempt)) [
        | inl e ↦ rw (on_success (suc left) attempt last e) (succeeds (suc left) attempt)
        | inr (x, e) ↦ elim (Bool-cases (ends attempt)) [
          | inl stop ↦ rw (on_cancel left attempt last x e stop) (stops left attempt x)
          | inr on ↦ rw (on_wait left attempt last x e on) (
              waits left attempt x (run_attempts answer ends (suc left) (attempt + 1) x)
                (by_ways P none_left succeeds fails stops waits (suc left) (attempt + 1) x))
        ]
      ]

abbrev IsBounded : ℕ → ℕ → Run → Type 0
IsBounded left attempt run =
    (attempts run.events ≤ left) × (total_wait run.events ≤ budget left attempt)

loop_bounds :
    (answer : ℕ → Option String) (ends : ℕ → Bool) (left attempt : ℕ) (last : String)
    → IsBounded left attempt (run_attempts answer ends left attempt last)
unfolding attempts total_wait budget
loop_bounds answer ends =
    by_ways answer ends IsBounded (λ attempt last. (omega arith, omega arith))
      (λ left attempt. (omega arith, omega arith)) (λ attempt e. (omega arith, omega arith))
      (λ left attempt e. (omega arith, omega arith))
      (λ left attempt e run (tries, wait). (omega arith, omega arith))

budget_bound : (left : ℕ) → left ≤ 5 → budget left 1 ≤ 18 * second
unfolding budget backoff
budget_bound zero h = omega arith
budget_bound (suc zero) h = omega arith
budget_bound (suc (suc zero)) h = omega arith
budget_bound (suc (suc (suc zero))) h = omega arith
budget_bound (suc (suc (suc (suc zero)))) h = omega arith
budget_bound (suc (suc (suc (suc (suc zero))))) h = omega arith
budget_bound (suc (suc (suc (suc (suc (suc left)))))) h = omega arith

-- A job is tried five times at most, and waits 18 seconds in all at most.
pub run_job_bounds :
    (answer : ℕ → Option String) (ends : ℕ → Bool) (limit : ℤ)
    → (attempts (run_job answer ends limit).events ≤ 5)
      × (total_wait (run_job answer ends limit).events ≤ 18 * second)
unfolding run_job
run_job_bounds answer ends limit =
    let n = retries limit in
    let (tries, waits) = loop_bounds answer ends n 1 "" in
    let (least, most) = retries_bounds limit in
    let b = budget_bound n most in (omega arith, omega arith)

-- Exactly one result is stored of a run, the one that runJob returns; none, if its context ends.
pub results-run_job :
    (answer : ℕ → Option String) (ends : ℕ → Bool) (limit : ℤ)
    → results (run_job answer ends limit).events ≡ expected (run_job answer ends limit).verdict
unfolding run_job results
results-run_job answer ends limit =
    by_ways answer ends (λ left attempt run. results run.events ≡ expected run.verdict)
      (λ attempt last. refl) (λ left attempt. refl) (λ attempt e. refl) (λ left attempt e. refl)
      (λ left attempt e run h. h) (retries limit) 1 ""
