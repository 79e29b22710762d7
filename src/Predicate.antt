-- ===== src/Predicate.antt =====
-- predicates.py (src/llm_agent_eval/predicates.py): the scalar predicate language, in the children.
-- `Tokens` is the lexer, `Syntax` the AST and the parser, `Eval` the three-valued evaluation, and
-- `Compile` the class Predicate; the proofs stand below them.
pub mod Tokens
pub mod Syntax
pub mod Parser
pub mod Eval
pub mod Truth
pub mod Missing
pub mod Datetimes
pub mod Compile
mod Tests
