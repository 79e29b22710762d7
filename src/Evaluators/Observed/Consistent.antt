-- ===== src/Evaluators/Observed/Consistent.antt =====
-- The shape of the results that the evaluators of evaluators.py make of observed values.
use traceline.Common.{String, Bool, List, Option, none, some, Result, Ensures}
use traceline.Values.{Value, Python}
use traceline.Spec.Model.{
  EvaluatorType, exact_match, json_schema, regex, numeric, reference, cel_predicate, trace_rule,
  llm_judge, composite, recall_at_k, citation_correctness, Metric, TestCase,
}
use traceline.Evaluators.Numbers.{Arithmetic}
use traceline.Evaluators.Schema.{Search}
use traceline.Evaluators.Scores.{Raised}
use traceline.Evaluators.Raw.{Attempt}
use traceline.Evaluators.Raw.Consistent.{
  IsConsistent, after, either, score_raw_value-IsConsistent, boolean_case_score-IsConsistent,
}
use traceline.Evaluators.Observed.{
  score_equal, score_tested, score_regex, score_recall, score_citation, score_citations,
  observed_by, score_observed_value,
}

module _ (py : Python) (ar : Arithmetic py.Float) (to_text : Value py.Float → String)
    (finder : Search) where
  open py use {Float}

  score_equal-IsConsistent :
      (m : Metric Float) (a : Attempt) (vs : List (Value Float)) (expected : Value Float)
      (ids : List String)
      → Ensures (IsConsistent m a) (score_equal py ar to_text finder m a vs expected ids)
  unfolding score_equal
  score_equal-IsConsistent m a vs expected ids =
      search (either, boolean_case_score-IsConsistent, score_raw_value-IsConsistent)

  score_tested-IsConsistent :
      (test : Value Float → Result Raised Bool) (m : Metric Float) (a : Attempt)
      (vs : List (Value Float)) (ids : List String)
      → Ensures (IsConsistent m a) (score_tested py ar to_text finder test m a vs ids)
  unfolding score_tested
  score_tested-IsConsistent test m a vs ids =
      search (either, after, boolean_case_score-IsConsistent, score_raw_value-IsConsistent)

  score_regex-IsConsistent :
      (pattern : Option String) (m : Metric Float) (a : Attempt) (vs : List (Value Float))
      (ids : List String)
      → Ensures (IsConsistent m a) (score_regex py ar to_text finder pattern m a vs ids)
  unfolding score_regex
  score_regex-IsConsistent none m a vs ids = tt
  score_regex-IsConsistent (some p) m a vs ids = search (after, score_tested-IsConsistent)

  score_recall-IsConsistent :
      (m : Metric Float) (a : Attempt) (ids : List String) (ranked relevant : Option (List String))
      → Ensures (IsConsistent m a) (score_recall py ar to_text finder m a ids ranked relevant)
  unfolding score_recall
  score_recall-IsConsistent m a ids none relevant = tt
  score_recall-IsConsistent m a ids (some ranked) none = tt
  score_recall-IsConsistent m a ids (some ranked) (some relevant) =
      search (after, score_raw_value-IsConsistent)

  score_citation-IsConsistent :
      (m : Metric Float) (a : Attempt) (ids : List String) (score : Option Float)
      → Ensures (IsConsistent m a) (score_citation py ar to_text finder m a ids score)
  unfolding score_citation
  score_citation-IsConsistent m a ids none = tt
  score_citation-IsConsistent m a ids (some score) = search score_raw_value-IsConsistent

  score_citations-IsConsistent :
      (m : Metric Float) (a : Attempt) (ids : List String) (cited : Option (List String))
      → Ensures (IsConsistent m a) (score_citations py ar to_text finder m a ids cited)
  unfolding score_citations
  score_citations-IsConsistent m a ids none = tt
  score_citations-IsConsistent m a ids (some cited) = score_citation-IsConsistent m a ids _

  observed_by-IsConsistent :
      (t : EvaluatorType) (m : Metric Float) (a : Attempt) (vs : List (Value Float))
      (ids : List String) (c : TestCase Float)
      → Ensures (IsConsistent m a) (observed_by py ar to_text finder t m a vs ids c)
  unfolding observed_by
  observed_by-IsConsistent exact_match m a vs ids c = score_equal-IsConsistent m a vs _ ids
  observed_by-IsConsistent regex m a vs ids c = score_regex-IsConsistent _ m a vs ids
  observed_by-IsConsistent numeric m a vs ids c =
      score_raw_value-IsConsistent py ar to_text m a _ ids
  observed_by-IsConsistent recall_at_k m a vs ids c = score_recall-IsConsistent m a ids _ _
  observed_by-IsConsistent citation_correctness m a vs ids c =
      score_citations-IsConsistent m a ids _
  observed_by-IsConsistent reference m a vs ids c = search (after, score_equal-IsConsistent)
  observed_by-IsConsistent json_schema m a vs ids c = score_tested-IsConsistent _ m a vs ids
  observed_by-IsConsistent composite m a vs ids c = tt
  observed_by-IsConsistent cel_predicate m a vs ids c = tt
  observed_by-IsConsistent trace_rule m a vs ids c = tt
  observed_by-IsConsistent llm_judge m a vs ids c = tt

  pub score_observed_value-IsConsistent :
      (m : Metric Float) (a : Attempt) (vs : List (Value Float)) (ids : List String)
      (c : TestCase Float)
      → Ensures (IsConsistent m a) (score_observed_value py ar to_text finder m a vs ids c)
  unfolding score_observed_value
  score_observed_value-IsConsistent m a vs ids c =
      observed_by-IsConsistent m.evaluator.type m a vs ids c
