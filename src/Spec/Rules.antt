-- ===== src/Spec/Rules.antt =====
-- `validate_trace_rule_body` of spec.py. The first argument is how many depths are left below
-- _MAX_RULE_DEPTH.
pub mod Late
mod Nodes
pub mod Sound
use traceline.Common.{
  ℕ, zero, suc, String, Bool, true, false, not, ◌&&◌, ◌||◌, Option, none, some, List, [], ◌∷◌,
  Result, ok, err, ◌>>=◌, check, elem_str, is_empty, if◌then◌else◌,
}
use traceline.Values.{Value, bool, int, str, null, dict, list, items, Entries, entry_get, or_null}
use traceline.TraceRules.Rules.{
  Op, for_all, count, within_ms, and_op, or_op, not_op, implies, op_of_text,
}

-- The ValueErrors.
pub data RuleProblem : Type 0 where
  too_deep not_object unknown_op no_rules no_rule inner_count no_ms no_match bad_event : RuleProblem
  bad_tool bad_where bad_source bad_window no_assert : RuleProblem

-- EVENT_TYPES
abbrev pub event_types : List String
event_types =
    "llm_call" ∷ "llm_response" ∷ "tool_call" ∷ "tool_result" ∷ "error" ∷ "retrieval" ∷ "delegation"
    ∷ "guardrail_check" ∷ "wait_for_input" ∷ "user_response" ∷ "stream_start" ∷ "first_token"
    ∷ "retry" ∷ "budget_exceeded" ∷ []

abbrev pub sources : List String
sources = "proxy" ∷ "adapter" ∷ "runner" ∷ []

abbrev pub Verdict : Type 0
Verdict = Result RuleProblem (Unit {0})

abbrev pub is_count : Op → Bool
is_count count = true
is_count _ = false

abbrev pub is_within : Op → Bool
is_within within_ms = true
is_within _ = false

abbrev pub is_for_all : Op → Bool
is_for_all for_all = true
is_for_all _ = false

-- The validation of a child.
abbrev pub Check : Type 0 → Type 0
Check F = Value F → Verdict

module _ {F : Type 0} where
  -- node.get(key), None where it is absent
  unfoldable pub field : Entries F → String → Value F
  unfolding entry_get
  field node key = or_null (entry_get key node)

  abbrev pub rule_op : Value F → Option Op
  rule_op (str s) = op_of_text s
  rule_op _ = none

  -- isinstance(v, int)
  abbrev pub is_int : Value F → Bool
  is_int (int _) = true
  is_int (bool _) = true
  is_int _ = false

  abbrev pub is_dict : Value F → Bool
  is_dict (dict _) = true
  is_dict _ = false

  -- v is None or isinstance(v, int)
  abbrev pub opt_int : Value F → Bool
  opt_int null = true
  opt_int v = is_int v

  abbrev pub opt_text : Value F → Bool
  opt_text null = true
  opt_text (str _) = true
  opt_text _ = false

  abbrev pub text_in : List String → Value F → Bool
  text_in names (str s) = elem_str s names
  text_in names _ = false

  abbrev pub opt_in : List String → Value F → Bool
  opt_in names null = true
  opt_in names v = text_in names v

  -- The checks of a match object.
  unfoldable pub check_match : Entries F → Verdict
  unfolding field
  check_match m = check (text_in event_types (field m "event")) bad_event >>= λ _.
      check (opt_text (field m "tool")) bad_tool >>= λ _.
      check (opt_text (field m "where")) bad_where >>= λ _.
      check (opt_in sources (field m "source")) bad_source

  abbrev pub check_match_value : Value F → Verdict
  check_match_value (dict m) = check_match m
  check_match_value _ = err no_match

  abbrev pub check_all : Check F → List (Value F) → Verdict
  check_all rec [] = ok tt
  check_all rec (v ∷ vs) = rec v >>= λ _. check_all rec vs

  abbrev pub check_rules : Check F → Value F → Verdict
  check_rules rec (list xs) = if is_empty (items xs) then err no_rules else check_all rec (items xs)
  check_rules rec _ = err no_rules

  abbrev pub check_rule : RuleProblem → Check F → Value F → Verdict
  check_rule e rec (dict es) = rec (dict es)
  check_rule e rec _ = err e

  abbrev pub check_assert : Check F → Op → Entries F → Verdict
  check_assert rec op node =
      if is_for_all op then check_rule no_assert rec (field node "assert") else ok tt

  -- The match-bearing operators.
  unfoldable pub check_matching : Check F → Bool → Op → Entries F → Verdict
  unfolding check_match field
  check_matching rec root op node = check (not (is_count op && not root)) inner_count >>= λ _.
      check (not (is_within op) || is_int (field node "ms")) no_ms >>= λ _.
      check_match_value (field node "match") >>= λ _.
      check (opt_int (field node "within_ms")) bad_window >>= λ _. check_assert rec op node

  unfoldable pub check_op : Check F → Bool → Option Op → Entries F → Verdict
  unfolding check_matching
  check_op rec root none node = err unknown_op
  check_op rec root (some and_op) node = check_rules rec (field node "rules")
  check_op rec root (some or_op) node = check_rules rec (field node "rules")
  check_op rec root (some not_op) node = check_rule no_rule rec (field node "rule")
  check_op rec root (some implies) node = check_rule no_rule rec (field node "rule")
  check_op rec root (some op) node = check_matching rec root op node

  abbrev pub check_node : Check F → Bool → Value F → Verdict
  check_node rec root (dict node) = check_op rec root (rule_op (field node "op")) node
  check_node rec root _ = err not_object

  unfoldable pub check_at : ℕ → Bool → Check F
  unfolding check_op
  check_at zero root node = err too_deep
  check_at (suc levels) root node = check_node (check_at levels false) root node

  -- _MAX_RULE_DEPTH is 100.
  unfoldable pub validate_trace_rule_body : Entries F → Verdict
  unfolding check_at
  validate_trace_rule_body rule = check_at 101 true (dict rule)
