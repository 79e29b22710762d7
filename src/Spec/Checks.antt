-- ===== src/Spec/Checks.antt =====
-- The validators of the objects of spec.py, in the order of the class. Of several problems the first
-- is reported.
use Prim.Native.Char.{code}
use Prim.Native.String.{String, [], ◌∷◌}
use traceline.Common.{
  Bool, true, false, not, ◌&&◌, ◌||◌, Option, none, some, List, Result, ok, err, ◌>>=◌, check, leb,
  ◌==◌, str_eq, elem_str, is_some, all, map, if◌then◌else◌,
}
use traceline.Common.Int.{pos, ltb_ℤ}
use traceline.Values.{Value, int, float, str, null, list, items, Entries, Python}
use traceline.Predicate.Compile.{Cel, Language, cel, compile}
use traceline.TraceRules.Rules.{Op}
use traceline.Spec.Model.{
  TargetType, tool_invocation, tool_arguments, tool_output, run, Target, EvaluatorType, exact_match,
  json_schema, regex, numeric, reference, cel_predicate, trace_rule, llm_judge, composite,
  recall_at_k, citation_correctness, Evaluator, ScoringType, binary, categorical, Scoring, Gate,
  plain_occurrences, MetricType, judge, Metric, TestCase, EvaluationSpec,
}
use traceline.Spec.Rules.{validate_trace_rule_body, rule_op, field, is_count}

-- The problems that the validators raise, as ValueErrors.
pub data SpecProblem : Type 0 where
  bad_occurrence bad_selector no_tool no_on_missing bad_config bad_predicate bad_rule : SpecProblem
  no_range bad_range no_categories no_bound bad_bounds no_binding not_llm_judge : SpecProblem
  no_condition duplicate_case duplicate_metric : SpecProblem

-- text.startswith(prefix), with the rest
unfoldable pub drop_prefix : String → String → Option String
drop_prefix [] s = some s
drop_prefix (p ∷ ps) [] = none
drop_prefix (p ∷ ps) (c ∷ s) =
    let rest = drop_prefix ps s in if code p == code c then rest else none

-- [0-9]+$, where $ also stands before a last newline
unfoldable pub digits_end : Bool → String → Bool
digits_end seen [] = seen
digits_end seen (c ∷ []) = leb b'0' (code c) && leb (code c) b'9' || (code c == 10 && seen)
digits_end seen (c ∷ (d ∷ s)) =
    let rest = digits_end true (d ∷ s) in
    if leb b'0' (code c) && leb (code c) b'9' then rest else false

abbrev pub is_index : Option String → Bool
is_index none = false
is_index (some s) = digits_end false s

-- _OCCURRENCE_RE
unfoldable pub is_occurrence : String → Bool
unfolding drop_prefix digits_end
is_occurrence s = elem_str s plain_occurrences || is_index (drop_prefix "index:" s)

abbrev pub opt_holds : {A : Type 0} → (A → Bool) → Option A → Bool
opt_holds p none = true
opt_holds p (some a) = p a

abbrev pub is_tool_scoped : TargetType → Bool
is_tool_scoped tool_invocation = true
is_tool_scoped tool_arguments = true
is_tool_scoped tool_output = true
is_tool_scoped _ = false

abbrev pub is_run : TargetType → Bool
is_run run = true
is_run _ = false

abbrev pub Verdict : Type 0
Verdict = Result SpecProblem (Unit {0})

unfoldable pub check_target : Target → Verdict
unfolding is_occurrence drop_prefix
check_target t = check (opt_holds is_occurrence t.occurrence) bad_occurrence >>= λ _.
    check (opt_holds (λ s. is_some (drop_prefix "$" s)) t.selector) bad_selector >>= λ _.
    check (not (is_tool_scoped t.type) || is_some t.tool) no_tool >>= λ _.
    check (is_run t.type || is_some t.on_missing) no_on_missing

-- isinstance(text, str) and text
abbrev pub is_filled : Option String → Bool
is_filled none = false
is_filled (some s) = not (str_eq s "")

module _ (py : Python) (celpy : Cel py.Float) where
  open py use {Float, float_lt}

  abbrev pub is_none : Value Float → Bool
  is_none null = true
  is_none _ = false

  abbrev pub is_number : Value Float → Bool
  is_number (int _) = true
  is_number (float _) = true
  is_number _ = false

  abbrev pub is_text : Value Float → Bool
  is_text (str _) = true
  is_text _ = false

  abbrev pub filled_text : Value Float → Bool
  filled_text (str s) = not (str_eq s "")
  filled_text _ = false

  abbrev pub filled_texts : Value Float → Bool
  filled_texts (list xs) = all filled_text (items xs)
  filled_texts _ = false

  abbrev pub or_cel : Option Language → Language
  or_cel none = cel
  or_cel (some l) = l

  abbrev pub as_problem : {A E : Type 0} → SpecProblem → Result E A → Verdict
  as_problem p (ok _) = ok tt
  as_problem p (err _) = err p

  abbrev pub check_predicate : Option Language → Option String → Verdict
  check_predicate l none = err bad_config
  check_predicate l (some s) = as_problem bad_predicate (compile py celpy (or_cel l) s)

  abbrev pub check_rule_body : Option (Entries Float) → Verdict
  check_rule_body none = err bad_config
  check_rule_body (some es) = as_problem bad_rule (validate_trace_rule_body es)

  -- Evaluator._config_matches_type
  unfoldable pub check_config : EvaluatorType → Evaluator Float → Verdict
  unfolding compile validate_trace_rule_body
  check_config exact_match e = check (not (is_none e.expected)) bad_config
  check_config json_schema e = check (is_some e.schema) bad_config
  check_config regex e = check (is_filled e.pattern) bad_config
  check_config numeric e = check (is_number e.expected && is_some e.tolerance) bad_config
  check_config reference e = check (is_text e.expected) bad_config
  check_config cel_predicate e = check (is_filled e.predicate) bad_config >>= λ _.
      check_predicate e.language_version e.predicate
  check_config trace_rule e = check_rule_body e.rule
  check_config llm_judge e = check (is_filled e.rubric_version_id) bad_config
  check_config composite e = ok tt
  check_config recall_at_k e =
      check (filled_texts e.expected && is_some e.k && opt_holds (λ k. ltb_ℤ (pos 0) k) e.k)
        bad_config
  check_config citation_correctness e = check (is_some e.evidence) bad_config

  abbrev pub ordered : Float × Float → Bool
  ordered (lo, hi) = not (float_lt hi lo)

  abbrev pub is_categorical : ScoringType → Bool
  is_categorical categorical = true
  is_categorical _ = false

  abbrev pub is_binary : ScoringType → Bool
  is_binary binary = true
  is_binary _ = false

  -- Scoring._shape
  unfoldable pub check_scoring : Scoring Float → Verdict
  check_scoring s = check (is_categorical s.type || is_some s.range) no_range >>= λ _.
      check (opt_holds ordered s.range) bad_range >>= λ _.
      check (not (is_categorical s.type) || is_some s.categories) no_categories

  abbrev pub bounds_fit : Option Float → Option Float → Bool
  bounds_fit (some lo) (some hi) = not (float_lt hi lo)
  bounds_fit _ _ = true

  -- Gate._shape
  unfoldable pub check_gate : Gate Float → Verdict
  check_gate g = check (is_some g.min || is_some g.max) no_bound >>= λ _.
      check (bounds_fit g.min g.max) bad_bounds

  abbrev pub is_llm_judge : EvaluatorType → Bool
  is_llm_judge llm_judge = true
  is_llm_judge _ = false

  abbrev pub is_judge : MetricType → Bool
  is_judge judge = true
  is_judge _ = false

  abbrev pub counts : Option Op → Bool
  counts (some op) = is_count op
  counts none = false

  abbrev pub rule_counts : Option (Entries Float) → Bool
  rule_counts none = false
  rule_counts (some es) = counts (rule_op (field es "op"))

  -- The evaluators whose raw output is a number.
  abbrev pub produces_number : EvaluatorType → Evaluator Float → Bool
  produces_number numeric e = true
  produces_number recall_at_k e = true
  produces_number citation_correctness e = true
  produces_number trace_rule e = rule_counts e.rule
  produces_number _ e = false

  abbrev pub check_gate_of : Option (Gate Float) → Verdict
  check_gate_of none = ok tt
  check_gate_of (some g) = check_gate g

  -- The validators of a Metric behind those of its parts.
  unfoldable pub check_metric : Metric Float → Verdict
  unfolding check_target check_config check_scoring check_gate field
  check_metric m = check_target m.target >>= λ _. check_config m.evaluator.type m.evaluator >>= λ _.
      check_scoring m.scoring >>= λ _. check_gate_of m.gate >>= λ _.
      check (not (is_judge m.type) || is_some m.judge_binding) no_binding >>= λ _.
      check (not (is_judge m.type) || is_llm_judge m.evaluator.type) not_llm_judge >>= λ _.
      check
        (not (is_binary m.scoring.type && produces_number m.evaluator.type m.evaluator)
          || is_filled m.scoring.condition)
        no_condition

  abbrev pub check_each : List (Metric Float) → Verdict
  check_each List.[] = ok tt
  check_each (List.◌∷◌ m ms) = check_metric m >>= λ _. check_each ms

  abbrev pub distinct : List String → Bool
  distinct List.[] = true
  distinct (List.◌∷◌ s ss) = not (elem_str s ss) && distinct ss

  -- The metrics, then EvaluationSpec._unique_ids.
  unfoldable pub check_spec : EvaluationSpec Float → Verdict
  unfolding check_metric
  check_spec s = check_each s.metrics >>= λ _.
      check (distinct (map (λ (c : TestCase Float). c.case_id) s.cases)) duplicate_case >>= λ _.
      check (distinct (map (λ (m : Metric Float). m.metric_id) s.metrics)) duplicate_metric
