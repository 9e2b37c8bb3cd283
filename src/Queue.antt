-- ===== src/Queue.antt =====
-- The queue of tasks (cli/queue).
pub mod Lanes
