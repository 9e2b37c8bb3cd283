-- ===== src/Tools.antt =====
-- The tools that agents call (cli/tools).
pub mod Path
pub mod World
pub mod Result
pub mod Executor
pub mod Subagents
pub mod CronTools
pub mod Image
pub mod Run
pub mod Guard
pub mod Writes
pub mod Schemas
mod Examples
