-- ===== src/TraceRules.antt =====
-- trace_rules.py (src/llm_agent_eval/trace_rules.py): the closed set of trace-rule operators over
-- the events of one attempt. `Errors` has what it raises, `Order` the ordering contract, `Matching` the resolution of `match`,
-- `Rules` the operators; the proofs stand below them.
pub mod Errors
pub mod Order
pub mod Matching
pub mod Rules
pub mod Causality
pub mod Sorted
pub mod Reports
pub mod Candidates
pub mod Evidence
mod Tests
