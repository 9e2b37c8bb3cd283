-- ===== src/Scheduler.antt =====
-- Scheduled jobs: cli/scheduler.
pub mod CronExpr
pub mod Calendar
pub mod Next
pub mod Job
pub mod Resolve
pub mod Tick
pub mod Run
mod Examples
