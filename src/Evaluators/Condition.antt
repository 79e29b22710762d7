-- ===== src/Evaluators/Condition.antt =====
-- The closed grammar of scoring.condition in evaluators.py: its tokens, its parser and its evaluation.
pub mod Tokens
pub mod Parser
pub mod Lexed
pub mod Total
pub mod Logic
pub mod Eval
