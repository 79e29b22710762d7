-- ===== src/Evaluators/Attempts.antt =====
-- The entry points of evaluators.py: `evaluate_case`, `score_attempt` and `score_output`. The packages
-- re and celpy and Python's str() are parameters.
pub mod Carried
use Prim.Native.String
use traceline.Common.{
  String, Bool, true, false, not, ◌&&◌, ◌||◌, List, [], ◌∷◌, Option, none, some, Result, ok, err,
  ◌>>=◌, check, all, filter, str_eq, is_some, is_empty, if◌then◌else◌,
}
use traceline.Common.Int.{ℤ, pos, eqb_ℤ, ltb_ℤ}
use traceline.Values.{Value, dict, entry_get, Python}
use traceline.Predicate.Compile.{Cel}
use traceline.Spec.Model.{TargetType, MetricType, scalar, judge, Metric, TestCase, EvaluationSpec}
use traceline.Judge.Verdicts.{Judge}
use traceline.Evaluators.Numbers.{Arithmetic}
use traceline.Evaluators.Scores.{
  CaseScore, Raised, evaluation_error, trace_rule_error, judgment_error, value_error, AttemptEvent,
}
use traceline.Evaluators.Selectors.{select_from}
use traceline.Evaluators.Targets.{is_outside}
use traceline.Evaluators.Schema.{Search}
use traceline.Evaluators.Raw.{Attempt, error_result, on_missing_result}
use traceline.Evaluators.Observed.{score_observed_value}
use traceline.Evaluators.ByType.{
  Scored, case_from_spec, traced, is_input, is_run_target, finish_judge, score_by_type,
}

abbrev pub slot : String → ℤ → Bool → Bool → Attempt
slot id attempt override provisional = record {
  case_id = id;
  attempt = attempt;
  on_retry_override = override;
  provisional = provisional;
}

module _ {F : Type 0} where
  -- `_validate_events`, on objects that are events
  abbrev pub validate_events : String → List (AttemptEvent F) → Result Raised (Unit {0})
  validate_events id events =
      check (all (λ (e : AttemptEvent F). str_eq e.case_id id) events) value_error

  -- The one attempt of all events, 0 without events; a ValueError if there are two.
  unfoldable pub attempt_of : List (AttemptEvent F) → Result Raised ℤ
  attempt_of [] = ok (pos 0)
  attempt_of (e ∷ es) =
      check (all (λ (x : AttemptEvent F). eqb_ℤ x.attempt e.attempt) es) value_error >>= λ _.
      ok e.attempt

-- `except (EvaluationError, TraceRuleError, JudgmentError)`
abbrev pub is_caught : Raised → Bool
is_caught (evaluation_error p) = true
is_caught (trace_rule_error r) = true
is_caught judgment_error = true
is_caught _ = false

abbrev pub or_error :
    {F : Type 0} → CaseScore F → Result Raised (CaseScore F) → Result Raised (CaseScore F)
or_error e (ok s) = ok s
or_error e (err r) = if is_caught r then ok e else err r

abbrev pub is_judge_metric : MetricType → Bool
is_judge_metric judge = true
is_judge_metric _ = false

abbrev pub is_scalar_metric : MetricType → Bool
is_scalar_metric scalar = true
is_scalar_metric _ = false

module _ (py : Python) (celpy : Cel py.Float) (ar : Arithmetic py.Float)
    (to_text : Value py.Float → String) (search : Search) where
  open py use {Float}

  unfoldable pub score_attempt :
      EvaluationSpec Float
      → Option (Judge Float)
      → String
      → List (AttemptEvent Float)
      → Metric Float
      → Scored Float
  unfolding case_from_spec attempt_of on_missing_result score_by_type error_result
  score_attempt spec j id events m = validate_events id events >>= λ _.
      case_from_spec spec.cases id >>= λ _.
      check (not (is_judge_metric m.type) || is_some j) value_error >>= λ _.
      check (not (is_run_target m.target.type)) value_error >>= λ _.
      attempt_of events >>= λ attempt.
      let a = slot id attempt (ltb_ℤ (pos 0) attempt) m.provisional in
      if is_empty events && not (is_input m.target.type)
      then on_missing_result py ar to_text m a
      else or_error (error_result m a)
          (score_by_type py celpy ar to_text search spec.cases j m a (traced events))

  unfoldable pub evaluate_case :
      EvaluationSpec Float
      → Option (Judge Float)
      → String
      → List (AttemptEvent Float)
      → Metric Float
      → Scored Float
  unfolding score_attempt
  evaluate_case spec j id events m = validate_events id events >>= λ _.
      score_attempt spec j id (filter (λ (e : AttemptEvent Float). eqb_ℤ e.attempt (pos 0)) events)
        m

  -- The observed response of an output, of which a final_response target reads that entry.
  unfoldable pub output_context : TargetType → Value Float → Value Float
  unfolding entry_get
  output_context TargetType.final_response (dict es) = elim (entry_get "final_response" es) [
    | none ↦ dict es
    | some v ↦ v
  ]
  output_context _ v = v

  abbrev pub judge_output :
      EvaluationSpec Float
      → Option (Judge Float)
      → TestCase Float
      → Metric Float
      → Attempt
      → Scored Float
  unfolding score_attempt finish_judge
  judge_output spec none c m a = err judgment_error
  judge_output spec (some j) c m a =
      if is_outside m.target.type
      then finish_judge py celpy ar to_text search j c m a []
      else score_attempt spec (some j) a.case_id [] m

  abbrev pub output_by_type :
      EvaluationSpec Float
      → Option (Judge Float)
      → TestCase Float
      → Value Float
      → Metric Float
      → Attempt
      → Scored Float
  unfolding score_attempt finish_judge select_from output_context score_observed_value
  output_by_type spec j c output m a =
      if is_judge_metric m.type
      then judge_output spec j c m a
      else if not (is_scalar_metric m.type) || not (is_outside m.target.type)
      then score_attempt spec j a.case_id [] m
      else (select_from py (output_context m.target.type output) m.target.selector >>= λ v.
          score_observed_value py ar to_text search m a (v ∷ []) [] c)

  unfoldable pub score_output :
      EvaluationSpec Float
      → Option (Judge Float)
      → String
      → Value Float
      → Metric Float
      → ℤ
      → Bool
      → Scored Float
  unfolding case_from_spec score_attempt finish_judge select_from output_context
      score_observed_value error_result
  score_output spec j id output m attempt override = case_from_spec spec.cases id >>= λ c.
      let a = slot id attempt override m.provisional in
      or_error (error_result m a) (output_by_type spec j c output m a)
