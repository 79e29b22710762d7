-- ===== src/Evaluators/ByType.antt =====
-- The scoring of an attempt by the type of its metric in evaluators.py (`_score_trace_rule`,
-- `_score_scalar`, `_score_judge`). The packages re and celpy and Python's str() are parameters.
pub mod Consistent
use Prim.Native.String
use traceline.Common.{
  ℕ, String, Bool, true, false, ◌||◌, List, [], ◌∷◌, Option, none, some, Result, ok, err, ◌>>=◌,
  check, traverse, map, str_eq, is_empty, if◌then◌else◌, ◌++◌,
}
use traceline.Common.Int.{pos}
use traceline.Values.{Value, bool, int, float, str, null, dict, Entries, entry_get, Python}
use traceline.Events.{TraceEvent, payload_value}
use traceline.Predicate.Eval.{PyError}
use traceline.Predicate.Tokens.{CompileError, syntax, semantic}
use traceline.Predicate.Compile.{Cel, prototype, compile, evaluate_predicate}
use traceline.TraceRules.Rules.{RuleResult, evaluate_rule}
use traceline.Spec.Model.{
  TargetType, input, trace, run, tool_arguments, tool_output, model_output, EvaluatorType,
  cel_predicate, MetricType, rule_metric, scalar, judge, Metric, TestCase,
}
use traceline.Judge.Verdicts.{Judge, scale_fits}
use traceline.Evaluators.Numbers.{Arithmetic, Number, whole, real}
use traceline.Evaluators.Scores.{
  CaseScore, whole_trace, bad_predicate, Raised, evaluation_error, judgment_error, value_error,
  type_error, python_error, AttemptEvent,
}
use traceline.Evaluators.Selectors.{select_from}
use traceline.Evaluators.Targets.{
  from_rule, is_outside, select_target_events, apply_occurrence, payload_ctx,
}
use traceline.Evaluators.Schema.{Search}
use traceline.Evaluators.Raw.{
  Attempt, dedupe_ids, judged, on_missing_result, all_hold, score_raw_value, boolean_case_score,
}
use traceline.Evaluators.Observed.{score_observed_value}

module _ {F : Type 0} where
  unfoldable pub case_from_spec : List (TestCase F) → String → Result Raised (TestCase F)
  case_from_spec [] id = err value_error
  case_from_spec (c ∷ cs) id =
      let rest = case_from_spec cs id in if str_eq c.case_id id then ok c else rest

  abbrev pub ids_of_events : List (TraceEvent F) → List String
  ids_of_events events = map (λ (e : TraceEvent F). e.event_id) events

  abbrev pub traced : List (AttemptEvent F) → List (TraceEvent F)
  traced events = map (λ (e : AttemptEvent F). e.event) events

  abbrev pub rule_value : Option (Entries F) → Value F
  rule_value none = null
  rule_value (some es) = dict es

  abbrev pub is_count_rule : Option (Entries F) → Bool
  unfolding entry_get
  is_count_rule none = false
  is_count_rule (some es) = elim (entry_get "op" es) [ some (str s) ↦ str_eq s "count" | _ ↦ false ]

  abbrev pub opt_count : Option ℕ → Value F
  opt_count none = null
  opt_count (some n) = int (pos n)

  abbrev pub number_value : Number F → Value F
  number_value (whole n) = int n
  number_value (real x) = float x

abbrev pub from_predicate : {A : Type 0} → Result CompileError A → Result Raised A
from_predicate (ok a) = ok a
from_predicate (err (syntax p w)) = err (evaluation_error bad_predicate)
from_predicate (err (semantic w)) = err (evaluation_error bad_predicate)
from_predicate (err _) = err python_error

abbrev pub from_evaluation : {A : Type 0} → Result PyError A → Result Raised A
from_evaluation (ok a) = ok a
from_evaluation (err _) = err type_error

abbrev pub is_input : TargetType → Bool
is_input input = true
is_input _ = false

abbrev pub is_run_target : TargetType → Bool
is_run_target run = true
is_run_target _ = false

abbrev pub is_whole_trace : TargetType → Bool
is_whole_trace trace = true
is_whole_trace _ = false

abbrev pub Scored : Type 0 → Type 0
Scored F = Result Raised (CaseScore F)

module _ (py : Python) (celpy : Cel py.Float) (ar : Arithmetic py.Float)
    (to_text : Value py.Float → String) (search : Search) where
  open py use {Float}

  abbrev pub rule_score : Metric Float → Attempt → RuleResult → Scored Float
  unfolding score_raw_value dedupe_ids
  rule_score m a r =
      if is_count_rule m.evaluator.rule
      then score_raw_value py ar to_text m a (opt_count r.value) r.matched
      else if r.result
      then ok (judged m a ar.one_float true r.matched (bool true))
      else ok (judged m a ar.zero_float false (dedupe_ids (r.matched ++ r.failing)) (bool false))

  unfoldable pub score_trace_rule : Metric Float → Attempt → List (TraceEvent Float) → Scored Float
  unfolding score_raw_value evaluate_rule dedupe_ids
  score_trace_rule m a events =
      from_rule (evaluate_rule py celpy (rule_value m.evaluator.rule) events none) >>= λ r.
      rule_score m a r

  -- The observation context of an event.
  unfoldable pub observed_context : TargetType → TraceEvent Float → Value Float
  unfolding payload_ctx
  observed_context tool_arguments e = payload_ctx py e "args"
  observed_context tool_output e = payload_ctx py e "output"
  observed_context model_output e = payload_ctx py e "content"
  observed_context _ e = payload_value e.payload

  -- The predicate of a metric compiles in the prototype language, whatever its language_version.
  unfoldable pub score_cel :
      Option String → Metric Float → Attempt → List (TraceEvent Float) → Scored Float
  unfolding compile evaluate_predicate all_hold boolean_case_score
  score_cel none m a events = err type_error
  score_cel (some text) m a events = from_predicate (compile py celpy prototype text) >>= λ p.
      all_hold (λ e. from_evaluation (evaluate_predicate py celpy p e)) events >>= λ passed.
      boolean_case_score py ar to_text m a passed (ids_of_events events)

  abbrev pub score_values :
      TestCase Float → Metric Float → Attempt → List (TraceEvent Float) → Scored Float
  unfolding select_from observed_context score_observed_value
  score_values c m a events =
      traverse (λ e. select_from py (observed_context m.target.type e) m.target.selector) events
      >>= λ values. score_observed_value py ar to_text search m a values (ids_of_events events) c

  abbrev pub is_cel : EvaluatorType → Bool
  is_cel cel_predicate = true
  is_cel _ = false

  -- On the events that the occurrence selects, with the case, which score_attempt has found before; without any, on_missing decides.
  unfoldable pub score_selected :
      TestCase Float → Metric Float → Attempt → Option (List (TraceEvent Float)) → Scored Float
  unfolding score_cel select_from observed_context score_observed_value on_missing_result
  score_selected c m a none = on_missing_result py ar to_text m a
  score_selected c m a (some events) =
      if is_cel m.evaluator.type
      then score_cel m.evaluator.predicate m a events
      else score_values c m a events

  unfoldable pub score_scalar :
      List (TestCase Float) → Metric Float → Attempt → List (TraceEvent Float) → Scored Float
  unfolding case_from_spec select_from score_observed_value on_missing_result score_selected
      apply_occurrence select_target_events
  score_scalar cases m a events =
      if is_run_target m.target.type
      then err value_error
      else if is_whole_trace m.target.type
      then err (evaluation_error whole_trace)
      else if is_input m.target.type
      then (case_from_spec cases a.case_id >>= λ c.
          select_from py (dict c.input) m.target.selector >>= λ v.
          score_observed_value py ar to_text search m a (v ∷ []) [] c)
      else if is_outside m.target.type
      then on_missing_result py ar to_text m a
      else (select_target_events py celpy m.target events >>= λ selected.
          if is_empty selected
          then on_missing_result py ar to_text m a
          else (apply_occurrence py m.target.occurrence selected >>= λ sel.
              case_from_spec cases a.case_id >>= λ c. score_selected c m a sel))

  -- The verdict, whose score must lie in the scoring's range, as the raw value.
  unfoldable pub finish_judge :
      Judge Float → TestCase Float → Metric Float → Attempt → List String → Scored Float
  unfolding score_raw_value dedupe_ids
  finish_judge j c m a evidence = j m c evidence >>= λ v.
      check (scale_fits py ar m.scoring.range v.score) judgment_error >>= λ _.
      score_raw_value py ar to_text m a (number_value v.score)
        (dedupe_ids (evidence ++ v.evidence_refs))

  abbrev pub judge_selected :
      Judge Float
      → TestCase Float
      → Metric Float
      → Attempt
      → Option (List (TraceEvent Float))
      → Scored Float
  unfolding finish_judge on_missing_result
  judge_selected j c m a none = on_missing_result py ar to_text m a
  judge_selected j c m a (some events) = finish_judge j c m a (ids_of_events events)

  unfoldable pub score_judge :
      List (TestCase Float)
      → Judge Float
      → Metric Float
      → Attempt
      → List (TraceEvent Float)
      → Scored Float
  unfolding case_from_spec finish_judge on_missing_result apply_occurrence select_target_events
  score_judge cases j m a events =
      if is_outside m.target.type || (is_whole_trace m.target.type || is_run_target m.target.type)
      then on_missing_result py ar to_text m a
      else if is_input m.target.type
      then (case_from_spec cases a.case_id >>= λ c. finish_judge j c m a [])
      else (select_target_events py celpy m.target events >>= λ selected.
          if is_empty selected
          then on_missing_result py ar to_text m a
          else (apply_occurrence py m.target.occurrence selected >>= λ sel.
              case_from_spec cases a.case_id >>= λ c. judge_selected j c m a sel))

  abbrev pub typed_score :
      MetricType
      → List (TestCase Float)
      → Option (Judge Float)
      → Metric Float
      → Attempt
      → List (TraceEvent Float)
      → Scored Float
  unfolding score_trace_rule score_scalar score_judge
  typed_score rule_metric cases j m a events = score_trace_rule m a events
  typed_score scalar cases j m a events = score_scalar cases m a events
  typed_score judge cases none m a events = err value_error
  typed_score judge cases (some j) m a events = score_judge cases j m a events

  -- The scoring by the metric's type, inside the `try`.
  unfoldable pub score_by_type :
      List (TestCase Float)
      → Option (Judge Float)
      → Metric Float
      → Attempt
      → List (TraceEvent Float)
      → Scored Float
  unfolding score_trace_rule score_scalar score_judge
  score_by_type cases j m a events = typed_score m.type cases j m a events
