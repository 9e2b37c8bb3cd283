-- ===== src/Scheduler/Job.antt =====
-- Scheduled jobs: `CronJob` of cli/models/types.go. An instant is its distance in nanoseconds from
-- Go's zero time, as in Scheduler/Calendar.
use xclaw.Prelude.{ℕ, Bool, Option, String}
use xclaw.Prelude.Int.{ℤ}

pub record CronJob : Type 0 where
  pub id : String
  pub agent_id : String
  pub name : String
  pub schedule : String
  pub schedule_type : String
  pub job_type : String
  pub payload : String
  pub execution_mode : String
  pub session_id : String
  pub target_channel : String
  pub priority : String
  pub enabled : Bool
  pub retry_limit : ℤ
  pub last_run_at : Option ℕ
  pub next_run_at : Option ℕ
  pub last_status : String
  pub last_error : String
  pub created_at : ℕ
  pub updated_at : ℕ
