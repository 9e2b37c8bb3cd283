-- ===== src/Llm.antt =====
-- Language models (cli/llm).
pub mod TokenMonitor
pub mod Gateway
