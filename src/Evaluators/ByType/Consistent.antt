-- ===== src/Evaluators/ByType/Consistent.antt =====
-- That the scoring by type of evaluators.py returns consistent scores.
use traceline.Common.{String, List, Option, none, some, Ensures}
use traceline.Values.{Value, Python}
use traceline.Events.{TraceEvent}
use traceline.Predicate.Compile.{Cel}
use traceline.TraceRules.Rules.{RuleResult}
use traceline.Spec.Model.{MetricType, rule_metric, scalar, judge, Metric, TestCase}
use traceline.Judge.Verdicts.{Judge}
use traceline.Evaluators.Numbers.{Arithmetic}
use traceline.Evaluators.Schema.{Search}
use traceline.Evaluators.Raw.{Attempt}
use traceline.Evaluators.Raw.Consistent.{
  IsConsistent, after, raises, either, judged-IsConsistent, on_missing_result-IsConsistent,
  score_raw_value-IsConsistent, boolean_case_score-IsConsistent,
}
use traceline.Evaluators.Observed.Consistent.{score_observed_value-IsConsistent}
use traceline.Evaluators.ByType.{
  rule_score, score_trace_rule, score_cel, score_values, score_selected, score_scalar, finish_judge,
  judge_selected, score_judge, typed_score, score_by_type,
}

module _ (py : Python) (celpy : Cel py.Float) (ar : Arithmetic py.Float)
    (to_text : Value py.Float → String) (finder : Search) where
  open py use {Float}

  rule_score-IsConsistent :
      (m : Metric Float) (a : Attempt) (r : RuleResult)
      → Ensures (IsConsistent m a) (rule_score py celpy ar to_text finder m a r)
  unfolding rule_score
  rule_score-IsConsistent m a r = search (either, judged-IsConsistent, score_raw_value-IsConsistent)

  score_trace_rule-IsConsistent :
      (m : Metric Float) (a : Attempt) (es : List (TraceEvent Float))
      → Ensures (IsConsistent m a) (score_trace_rule py celpy ar to_text finder m a es)
  unfolding score_trace_rule
  score_trace_rule-IsConsistent m a es = search (after, rule_score-IsConsistent)

  score_cel-IsConsistent :
      (text : Option String) (m : Metric Float) (a : Attempt) (es : List (TraceEvent Float))
      → Ensures (IsConsistent m a) (score_cel py celpy ar to_text finder text m a es)
  unfolding score_cel
  score_cel-IsConsistent none m a es = tt
  score_cel-IsConsistent (some text) m a es = search (after, boolean_case_score-IsConsistent)

  score_values-IsConsistent :
      (c : TestCase Float) (m : Metric Float) (a : Attempt) (es : List (TraceEvent Float))
      → Ensures (IsConsistent m a) (score_values py celpy ar to_text finder c m a es)
  unfolding score_values
  score_values-IsConsistent c m a es = search (after, score_observed_value-IsConsistent)

  score_selected-IsConsistent :
      (c : TestCase Float) (m : Metric Float) (a : Attempt) (es : Option (List (TraceEvent Float)))
      → Ensures (IsConsistent m a) (score_selected py celpy ar to_text finder c m a es)
  unfolding score_selected
  score_selected-IsConsistent c m a none = on_missing_result-IsConsistent py ar to_text m a
  score_selected-IsConsistent c m a (some es) =
      search (either, score_cel-IsConsistent, score_values-IsConsistent)

  score_scalar-IsConsistent :
      (cs : List (TestCase Float)) (m : Metric Float) (a : Attempt) (es : List (TraceEvent Float))
      → Ensures (IsConsistent m a) (score_scalar py celpy ar to_text finder cs m a es)
  unfolding score_scalar
  score_scalar-IsConsistent cs m a es =
      search
        (
          either, after, on_missing_result-IsConsistent, score_observed_value-IsConsistent,
          score_selected-IsConsistent, raises,
        )
        depth 14

  finish_judge-IsConsistent :
      (j : Judge Float) (c : TestCase Float) (m : Metric Float) (a : Attempt) (ids : List String)
      → Ensures (IsConsistent m a) (finish_judge py celpy ar to_text finder j c m a ids)
  unfolding finish_judge
  finish_judge-IsConsistent j c m a ids = search (after, score_raw_value-IsConsistent)

  judge_selected-IsConsistent :
      (j : Judge Float) (c : TestCase Float) (m : Metric Float) (a : Attempt)
      (es : Option (List (TraceEvent Float)))
      → Ensures (IsConsistent m a) (judge_selected py celpy ar to_text finder j c m a es)
  unfolding judge_selected
  judge_selected-IsConsistent j c m a none = on_missing_result-IsConsistent py ar to_text m a
  judge_selected-IsConsistent j c m a (some es) = finish_judge-IsConsistent j c m a _

  score_judge-IsConsistent :
      (cs : List (TestCase Float)) (j : Judge Float) (m : Metric Float) (a : Attempt)
      (es : List (TraceEvent Float))
      → Ensures (IsConsistent m a) (score_judge py celpy ar to_text finder cs j m a es)
  unfolding score_judge
  score_judge-IsConsistent cs j m a es =
      search
        (
          either, after, on_missing_result-IsConsistent, finish_judge-IsConsistent,
          judge_selected-IsConsistent,
        )
        depth 14

  typed_score-IsConsistent :
      (t : MetricType) (cs : List (TestCase Float)) (j : Option (Judge Float)) (m : Metric Float)
      (a : Attempt) (es : List (TraceEvent Float))
      → Ensures (IsConsistent m a) (typed_score py celpy ar to_text finder t cs j m a es)
  unfolding typed_score
  typed_score-IsConsistent rule_metric cs j m a es = score_trace_rule-IsConsistent m a es
  typed_score-IsConsistent scalar cs j m a es = score_scalar-IsConsistent cs m a es
  typed_score-IsConsistent judge cs none m a es = tt
  typed_score-IsConsistent judge cs (some j) m a es = score_judge-IsConsistent cs j m a es

  pub score_by_type-IsConsistent :
      (cs : List (TestCase Float)) (j : Option (Judge Float)) (m : Metric Float) (a : Attempt)
      (es : List (TraceEvent Float))
      → Ensures (IsConsistent m a) (score_by_type py celpy ar to_text finder cs j m a es)
  unfolding score_by_type
  score_by_type-IsConsistent cs j m a es = typed_score-IsConsistent m.type cs j m a es
