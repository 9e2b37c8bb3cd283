-- ===== src/Engine.antt =====
-- The agent engine (cli/engine).
pub mod EventHub
