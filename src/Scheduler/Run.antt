-- ===== src/Scheduler/Run.antt =====
-- Running a job with retries: `runJob` of cli/scheduler/scheduler.go. The runner's answer to each
-- attempt, and whether the context ends in the wait behind it, are arguments. A stored result stands for
-- the write to the store and the log entry behind it.
pub mod Attempts
pub mod Success
use xclaw.Prelude.{
  ℕ, zero, suc, ◌+◌, ◌-◌, ◌*◌, Bool, true, false, List, [], ◌∷◌, ◌++◌, Option, none, some, String,
  ltb, ◌==◌, if◌then◌else◌,
}
use xclaw.Prelude.Int.{ℤ, pos, negsuc}
use xclaw.Scheduler.Calendar.{second}

pub data RunEvent : Type 0 where
  attempted : ℕ → RunEvent
  logged_retry : ℕ → String → RunEvent
  waited : ℕ → RunEvent
  stored_success : ℕ → RunEvent
  stored_failure : String → RunEvent

pub data Verdict : Type 0 where
  success : Verdict
  failure : String → Verdict
  cancelled : Verdict

pub record Run : Type 0 where
  pub events : List RunEvent
  pub verdict : Verdict

unfoldable pub retries : ℤ → ℕ
retries (pos zero) = 5
retries (pos (suc n)) = if ltb 5 (suc n) then 5 else suc n
retries (negsuc n) = 5

-- The wait behind an attempt.
unfoldable pub backoff : ℕ → ℕ
backoff attempt =
    if attempt == 1
    then second
    else if attempt == 2
    then 2 * second
    else if attempt == 3
    then 5 * second
    else 10 * second

abbrev pub before : List RunEvent → Run → Run
before events run = record run { events = events ++ run.events }

-- The loop from `attempt` on, with `left` attempts left; `last` is the last error's text, if any.
unfoldable pub run_attempts : (ℕ → Option String) → (ℕ → Bool) → ℕ → ℕ → String → Run
run_attempts answer ends zero attempt last = record {
  events = stored_failure last ∷ [];
  verdict = failure last;
}
run_attempts answer ends (suc left) attempt last =
    let rest = run_attempts answer ends left (attempt + 1) in
    elim (answer attempt) [
      | none ↦ record {
        events = attempted attempt ∷ stored_success attempt ∷ [];
        verdict = success;
      }
      | some e ↦
          if left == 0
          then before (attempted attempt ∷ logged_retry attempt e ∷ []) (rest e)
          else if ends attempt
          then record {
            events = attempted attempt ∷ logged_retry attempt e ∷ [];
            verdict = cancelled;
          }
          else before (attempted attempt ∷ logged_retry attempt e ∷ waited (backoff attempt) ∷ [])
              (rest e)
    ]

unfoldable pub run_job : (ℕ → Option String) → (ℕ → Bool) → ℤ → Run
run_job answer ends retry_limit = run_attempts answer ends (retries retry_limit) 1 ""
