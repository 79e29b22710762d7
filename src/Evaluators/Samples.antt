-- ===== src/Evaluators/Samples.antt =====
-- Values for the examples of the evaluators and of the judge: a runtime whose floats are the natural
-- numbers, a metric, a case and events.
use traceline.Common.{
  ℕ, ◌-◌, String, Bool, true, false, ◌&&◌, Option, none, some, [], ◌∷◌, err, ltb, leb, ◌==◌,
  if◌then◌else◌, length,
}
use traceline.Common.Int.{ℤ, pos, pos_part}
use traceline.Values.{Value, str, dict, null, end, entry, Python, aware}
use traceline.Events.{tool_call, proxy}
use traceline.Predicate.Tokens.{str_length, syntax, empty_predicate}
use traceline.Predicate.Compile.{Cel}
use traceline.Spec.Model.{
  tool_arguments, fail, EvaluatorType, exact_match, Scoring, ScoringType, binary, mean, exclude,
  JudgeBinding, Metric, MetricType, scalar, TestCase, EvaluationSpec,
}
use traceline.Evaluators.Numbers.{Arithmetic}
use traceline.Evaluators.Scores.{CaseScore, CaseStatus, AttemptEvent}
use traceline.Judge.Registry.{Thresholds}

-- Reads a text as its length, less one.
abbrev pub counting : Python
counting = record {
  Float = ℕ;
  float_eq = λ x y. x == y;
  float_lt = λ x y. ltb x y;
  int_float_eq = λ n x. pos_part n == x;
  int_float_lt = λ n x. ltb (pos_part n) x;
  float_int_lt = λ x n. ltb x (pos_part n);
  to_int = λ s. some (pos (str_length s - 1));
  to_float = λ s. none;
  chr = λ n. "n";
  from_iso_format = λ s. none;
  within_millis = λ d ms. true;
  is_digit = λ c. c == b'1';
  is_alpha = λ c. leb b'a' c && leb c b'z';
  is_blank = λ c. c == 32;
  is_alnum = λ c. leb b'a' c && leb c b'z';
}

abbrev pub float_counts : Arithmetic ℕ
float_counts = record {
  zero_float = 0;
  one_float = 1;
  half = 1;
  most = 1;
  sub = λ x y. x - y;
  div = λ x y. if leb y x then 1 else 0;
  of_int = λ n. some (pos_part n);
  ratio = λ n m. if leb m n then 1 else 0;
  sum = λ xs. length xs;
  div_count = λ x n. if leb n x then 1 else 0;
  ceil_times = λ p n. pos n;
  is_finite = λ x. true;
}

abbrev pub no_celpy : Cel ℕ
no_celpy = record {
  Program = Unit {0};
  compile_cel = λ s. err (syntax 0 empty_predicate);
  run = λ p e. false;
}

abbrev pub shipped : Thresholds ℕ
shipped = record { default_min_labels = 2; default_kappa_ready = 6; default_kappa_reset = 5 }

abbrev pub as_text : Value ℕ → String
as_text v = "value"

abbrev pub no_pattern : String → Option (String → Bool)
no_pattern p = none

abbrev pub binding_of : String → JudgeBinding
binding_of model = record {
  provider = "p";
  model = model;
  schema_version = "1";
  rubric_version = "1";
}

abbrev pub scoring_of : ScoringType → Scoring ℕ
scoring_of t = record { type = t; range = some (0, 5); categories = none; condition = none }

abbrev pub metric_of : MetricType → EvaluatorType → ScoringType → Bool → Metric ℕ
metric_of t e s provisional = record {
  metric_id = "m";
  type = t;
  target = record {
    type = tool_arguments;
    tool = some "search";
    selector = some "$.q";
    occurrence = none;
    on_missing = some fail;
  };
  evaluator = record {
    type = e;
    expected = str "cats";
    tolerance = none;
    pattern = none;
    schema = none;
    predicate = none;
    language_version = none;
    rule = none;
    rubric_version_id = none;
    k = none;
    evidence = none;
  };
  scoring = scoring_of s;
  aggregation = record { method = mean; on_error = exclude };
  gate = some (record { min = some 1; max = none });
  judge_binding = some (binding_of "a");
  provisional = provisional;
}

abbrev pub matching : Metric ℕ
matching = metric_of scalar exact_match binary false

abbrev pub one_case : TestCase ℕ
one_case = record { case_id = "c"; input = end; expected = end }

abbrev pub one_spec : EvaluationSpec ℕ
one_spec = record { cases = one_case ∷ []; metrics = matching ∷ [] }

abbrev pub call_of : ℤ → AttemptEvent ℕ
call_of attempt = record {
  case_id = "c";
  attempt = attempt;
  event = record {
    event_id = "e1";
    type = tool_call;
    source = proxy;
    timestamp = aware 10;
    sequence = pos 1;
    parent_event_id = none;
    provider_request_id = none;
    tool = some "search";
    cost = none;
    redaction_state = record { status = "clean"; rules = [] };
    payload = some (entry "args" (dict (entry "q" (str "cats") end)) end);
  };
}

abbrev pub score_of : CaseStatus → Option ℕ → Bool → CaseScore ℕ
score_of status score override = record {
  metric_id = "m";
  case_id = "c";
  score = score;
  passed = false;
  evidence_event_ids = [];
  status = status;
  attempt = pos 0;
  on_retry_override = override;
  provisional = false;
  raw_value = null;
  evaluator_version = none;
}
