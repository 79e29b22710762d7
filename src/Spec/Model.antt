-- ===== src/Spec/Model.antt =====
-- The objects of spec.py. A field of a Literal type is a data type; `Any` is a Python value; floats are
-- Python's. Names, descriptions, weights, tags, metadata and scripts, which no scoring reads, are left
-- out.
use traceline.Common.{String, Bool, Option, List, [], ◌∷◌}
use traceline.Common.Int.{ℤ}
use traceline.Values.{Value, Entries}
use traceline.Predicate.Compile.{Language}

pub data TargetType : Type 0 where
  input model_output tool_invocation tool_arguments tool_output retrieval : TargetType
  state_change workflow_node final_response trace run external : TargetType

pub data OnMissing : Type 0 where
  fail skip pass : OnMissing

pub record Target : Type 0 where
  pub type : TargetType
  pub tool : Option String
  pub selector : Option String
  pub occurrence : Option String
  pub on_missing : Option OnMissing

-- first|last|all, where the $ of the pattern also stands before a last newline
abbrev pub plain_occurrences : List String
plain_occurrences = "first" ∷ "last" ∷ "all" ∷ "first\n" ∷ "last\n" ∷ "all\n" ∷ []

pub data EvaluatorType : Type 0 where
  exact_match json_schema regex numeric reference cel_predicate trace_rule : EvaluatorType
  llm_judge composite recall_at_k citation_correctness : EvaluatorType

-- `expected` is None, as null, where it is not given.
pub record Evaluator (F : Type 0) : Type 0 where
  pub type : EvaluatorType
  pub expected : Value F
  pub tolerance : Option F
  pub pattern : Option String
  pub schema : Option (Entries F)
  pub predicate : Option String
  pub language_version : Option Language
  pub rule : Option (Entries F)
  pub rubric_version_id : Option String
  pub k : Option ℤ
  pub evidence : Option (List (String × Bool))

pub data ScoringType : Type 0 where
  binary numeric_scoring categorical : ScoringType

pub record Scoring (F : Type 0) : Type 0 where
  pub type : ScoringType
  pub range : Option (F × F)
  pub categories : Option (List String)
  pub condition : Option String

pub data Method : Type 0 where
  pass_rate mean p50 p95 min sum : Method

pub data OnError : Type 0 where
  count_failed exclude : OnError

pub record Aggregation : Type 0 where
  pub method : Method
  pub on_error : OnError

pub record Gate (F : Type 0) : Type 0 where
  pub min : Option F
  pub max : Option F

pub record JudgeBinding : Type 0 where
  pub provider : String
  pub model : String
  pub schema_version : String
  pub rubric_version : String

pub data MetricType : Type 0 where
  rule_metric scalar judge : MetricType

pub record Metric (F : Type 0) : Type 0 where
  pub metric_id : String
  pub type : MetricType
  pub target : Target
  pub evaluator : Evaluator F
  pub scoring : Scoring F
  pub aggregation : Aggregation
  pub gate : Option (Gate F)
  pub judge_binding : Option JudgeBinding
  pub provisional : Bool

-- `expected` maps names to expected values, whose tags are left out.
pub record TestCase (F : Type 0) : Type 0 where
  pub case_id : String
  pub input : Entries F
  pub expected : Entries F

pub record EvaluationSpec (F : Type 0) : Type 0 where
  pub cases : List (TestCase F)
  pub metrics : List (Metric F)
