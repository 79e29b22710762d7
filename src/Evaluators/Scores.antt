-- ===== src/Evaluators/Scores.antt =====
-- The results of evaluators.py and what it raises. The messages of the results are left out.
use traceline.Common.{ℕ, String, Bool, Option, List}
use traceline.Common.Int.{ℤ}
use traceline.Values.{Value}
use traceline.Events.{TraceEvent}
use traceline.TraceRules.Matching.{Reason}

pub data CaseStatus : Type 0 where
  pass_status fail_status error_status skipped_status : CaseStatus

pub data AggregationState : Type 0 where
  in_progress_state partial_state complete_state : AggregationState

pub record CaseScore (F : Type 0) : Type 0 where
  pub metric_id : String
  pub case_id : String
  pub score : Option F
  pub passed : Bool
  pub evidence_event_ids : List String
  pub status : CaseStatus
  pub attempt : ℤ
  pub on_retry_override : Bool
  pub provisional : Bool
  pub raw_value : Value F
  pub evaluator_version : Option String

pub record RunAggregate (F : Type 0) : Type 0 where
  pub metric_id : String
  pub value : Option F
  pub pass_rate : Option F
  pub mean : Option F
  pub n_cases : ℕ
  pub n_denominator : ℕ
  pub error_n : ℕ
  pub skipped_n : ℕ
  pub aggregation_state : AggregationState

pub record GateResult (F : Type 0) : Type 0 where
  pub metric_id : String
  pub value : Option F
  pub passed : Bool
  pub active : Bool

-- Why an EvaluationError is raised: a ConditionError has its position.
pub data EvaluationProblem : Type 0 where
  condition_error : ℕ → EvaluationProblem
  no_condition unsupported_selector unknown_occurrence list_of_categories : EvaluationProblem
  whole_trace bad_predicate bad_pattern bad_ranking bad_citations no_citations : EvaluationProblem
  no_case bad_reference bad_schema composite_evaluator wrong_evaluator on_missing_unset :
      EvaluationProblem
  bad_custom_score custom_range bad_custom_refs : EvaluationProblem

-- What the scoring raises: the three errors that `score_attempt` turns into a result, and those that
-- it lets through. `out_of_fuel` is the model's own.
pub data Raised : Type 0 where
  evaluation_error : EvaluationProblem → Raised
  trace_rule_error : Reason → Raised
  judgment_error : Raised
  value_error type_error zero_division overflow_error key_error attribute_error python_error :
      Raised
  out_of_fuel : Raised

-- The event with the fields of its envelope that the scoring reads.
pub record AttemptEvent (F : Type 0) : Type 0 where
  pub case_id : String
  pub attempt : ℤ
  pub event : TraceEvent F
