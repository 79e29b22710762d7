-- ===== src/Evaluators.antt =====
-- The per-case scoring and the run-level aggregation of evaluators.py
-- (src/llm_agent_eval/evaluators.py).
pub mod Numbers
pub mod Scores
pub mod Aggregate
pub mod Condition
pub mod Selectors
pub mod Targets
pub mod Raw
pub mod Schema
pub mod Observed
pub mod ByType
pub mod Attempts
pub mod Custom
pub mod Samples
mod Tests
