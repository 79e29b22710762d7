-- ===== src/TraceRules/Errors.antt =====
-- What the evaluation of a rule by trace_rules.py raises.

-- Why a TraceRuleError is raised.
pub data Reason : Type 0 where
  nesting_too_deep not_an_object unknown_op bad_source bad_where no_rules no_rule : Reason
  no_consequent no_match no_assert bad_window no_ms no_anchor : Reason

-- A TraceRuleError, the TypeError of Python on a naive and an aware timestamp that are compared or
-- subtracted, or an exception of Python out of a `where`.
pub data RuleError : Type 0 where
  rule_error : Reason → RuleError
  clock_error python_error : RuleError
