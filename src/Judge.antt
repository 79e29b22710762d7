-- ===== src/Judge.antt =====
-- The judge as an instrument: judge.py (src/llm_agent_eval/judge.py).
pub mod Readiness
pub mod Verdicts
pub mod Registry
pub mod Entries
pub mod Calls
mod Tests
