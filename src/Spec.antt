-- ===== src/Spec.antt =====
-- spec.py (src/llm_agent_eval/spec.py): the evaluation specification and its validators. `Model` has
-- the objects behind pydantic's own reading of the fields, `Rules` the structural check of a trace rule,
-- `Checks` the validators of the objects; the proofs stand below them.
pub mod Model
pub mod Rules
pub mod Checks
mod Tests
